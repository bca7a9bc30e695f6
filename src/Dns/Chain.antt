-- ===== src/Dns/Chain.antt =====
-- Every answer is a chain of aliases that starts at the name of the query.
use coredns_updater_plugin.Base.{
  ℕ, zero, suc, ◌≡◌, sym, subst, ◌∙◌, ap, true, some, List, [], ◌∷◌, arith, All, Bool-cases,
  List-cases, Option-cases, inl, inr,
}
use coredns_updater_plugin.Text.{Text, lit, Unicode, to_lower, equal_fold}
use coredns_updater_plugin.Text.Fold.{str_eq_iff}
use coredns_updater_plugin.Assoc.{lookup, lookup-All}
use coredns_updater_plugin.Record.{Record, Dns, Rr, Header, cname, to_rr}
use coredns_updater_plugin.Record.Convert.{header}
use coredns_updater_plugin.Store.{Store, bucket, get_all, of_type}
use coredns_updater_plugin.Store.Invariant.{IsWellFormed, IsBucket}
use coredns_updater_plugin.Dns.{
  Server, Msg, max_cname_hops, type_cname, records_to_rr, filter_by_type, chase_cname, cname_answer,
  serve_dns, write_answer,
}

module _ ⦃u : Unicode⦄ where
  -- A chain with at most `hops` owners: each alias is owned, up to case, by the name before it, and
  -- the records at the end are all owned by the last name.
  pub data Chain : ℕ → Text → List Rr → Type 0 where
    stop : {hops : ℕ} {target : Text} → Chain hops target []
    link :
        {hops : ℕ} {target next : Text} {h : Header} {rest : List Rr}
        → to_lower h.name ≡ to_lower target
        → Chain hops next rest
        → Chain (suc hops) target (cname h next ∷ rest)
    final :
        {hops : ℕ} {target : Text} {rrs : List Rr}
        → All (λ rr. to_lower (header rr).name ≡ to_lower target) rrs
        → Chain (suc hops) target rrs

  -- Every record of a name is filed under it.
  get_all-filed :
      (s : Store) (name : Text)
      → IsWellFormed s.records
      → All (λ r. to_lower r.name ≡ to_lower name) (get_all name s)
  unfolding get_all bucket
  get_all-filed s name w = elim (Option-cases (lookup (to_lower name) s.records)) [
    | inl missing ↦ rw missing tt
    | inr (recs, found) ↦
        rw found
          (lookup-All (λ e. IsBucket e.0 e.1) (to_lower name) recs s.records w.buckets found).filed
  ]

  of_type-All :
      (P : Record → Type 0) (t : Text) (recs : List Record) → All P recs → All P (of_type t recs)
  unfolding of_type
  of_type-All P t [] h = tt
  of_type-All P t (r ∷ recs) (p, h) = elim (Bool-cases (equal_fold r.type t)) [
    | inl same ↦ rw same (p, of_type-All P t recs h)
    | inr other ↦ rw other (of_type-All P t recs h)
  ]

  of_type-type :
      (t : Text) (recs : List Record) → All (λ r. equal_fold r.type t ≡ true) (of_type t recs)
  unfolding of_type
  of_type-type t [] = tt
  of_type-type t (r ∷ recs) = elim (Bool-cases (equal_fold r.type t)) [
    | inl same ↦ rw same (same, of_type-type t recs)
    | inr other ↦ rw other (of_type-type t recs)
  ]

  module _ (dns : Dns) where
    owner-to_rr : (r : Record) (rr : Rr) → to_rr dns r ≡ some rr → (header rr).name ≡ r.name
    unfolding to_rr
    owner-to_rr r rr h = ground arith

    -- A record of type CNAME up to case that converts becomes an alias to its value.
    cname-to_rr :
        (r : Record) (rr : Rr)
        → equal_fold r.type (lit "CNAME") ≡ true
        → to_rr dns r ≡ some rr
        → rr ≡ cname (header rr) r.value
    unfolding to_rr equal_fold
    cname-to_rr r rr e h = ground (
      arith,
      str_eq_iff r.type (lit "A"),
      str_eq_iff r.type (lit "AAAA"),
      str_eq_iff r.type (lit "TXT"),
      str_eq_iff r.type (lit "MX"),
      str_eq_iff r.type (lit "SRV"),
      str_eq_iff r.type (lit "NS"),
      str_eq_iff r.type (lit "PTR"),
      str_eq_iff r.type (lit "CAA"),
    )

    records_to_rr-owner :
        (target : Text) (recs : List Record)
        → All (λ r. to_lower r.name ≡ to_lower target) recs
        → All (λ rr. to_lower (header rr).name ≡ to_lower target) (records_to_rr dns recs)
    unfolding records_to_rr
    records_to_rr-owner target [] h = tt
    records_to_rr-owner target (r ∷ recs) (p, h) =
        let Owned = λ (xs : List Rr). All (λ rr. to_lower (header rr).name ≡ to_lower target) xs in
        let rest = records_to_rr-owner target recs h in
        elim (Option-cases (to_rr dns r)) [
          | inl o ↦
              let e : records_to_rr dns (r ∷ recs) ≡ records_to_rr dns recs = ground arith in
              subst Owned (sym e) rest
          | inr (rr, o) ↦
              let e : records_to_rr dns (r ∷ recs) ≡ rr ∷ records_to_rr dns recs = ground arith in
              subst Owned (sym e) (ap to_lower (owner-to_rr r rr o) ∙ p, rest)
        ]

    module _ (s : Store) (w : IsWellFormed s.records)
        (known : dns.type_to_string type_cname ≡ lit "CNAME") where
      -- The records of one type of a name, converted, end a chain at the name.
      final-Chain :
          (hops : ℕ) (target : Text) (qtype : ℕ)
          → Chain
              (suc hops)
              target
              (records_to_rr dns (filter_by_type dns (get_all target s) qtype))
      unfolding filter_by_type
      final-Chain hops target qtype = final (
          records_to_rr-owner target _ (
            of_type-All (λ r. to_lower r.name ≡ to_lower target) (dns.type_to_string qtype)
              (get_all target s) (get_all-filed s target w)))

      -- The first alias of a name links it to what follows.
      link-Chain :
          (hops : ℕ) (target : Text) (c : Record) (cs : List Record) (rr : Rr) (rest : List Rr)
          → filter_by_type dns (get_all target s) type_cname ≡ c ∷ cs
          → to_rr dns c ≡ some rr
          → Chain hops c.value rest
          → Chain (suc hops) target (rr ∷ rest)
      unfolding filter_by_type
      link-Chain hops target c cs rr rest found e chain =
          let t = dns.type_to_string type_cname in
          let filed =
            of_type-All (λ r. to_lower r.name ≡ to_lower target) t (get_all target s)
              (get_all-filed s target w) in
          let named : All (λ r. to_lower r.name ≡ to_lower target) (c ∷ cs) =
            subst (λ xs. All (λ r. to_lower r.name ≡ to_lower target) xs) found filed in
          let typed : All (λ r. equal_fold r.type t ≡ true) (c ∷ cs) =
            subst (λ xs. All (λ r. equal_fold r.type t ≡ true) xs) found
              (of_type-type t (get_all target s)) in
          rw (cname-to_rr c rr (rw known at typed.0) e)
            (link (ap to_lower (owner-to_rr c rr e) ∙ named.0) chain)

    module _ (later : ℕ → Store) (ws : (n : ℕ) → IsWellFormed (later n).records)
        (known : dns.type_to_string type_cname ≡ lit "CNAME") where
      chase_cname-Chain :
          (hops : ℕ) (target : Text) (qtype : ℕ)
          → Chain hops target (chase_cname dns later hops target qtype)
      unfolding chase_cname
      chase_cname-Chain zero target qtype = stop
      chase_cname-Chain (suc hops) target qtype =
          let s = later hops in
          let all = get_all target s in
          elim (List-cases (filter_by_type dns all qtype)) [
            | inr (r, recs, here) ↦
                let e : chase_cname dns later (suc hops) target qtype
                    ≡ records_to_rr dns (filter_by_type dns all qtype) =
                  ground arith in
                subst (Chain (suc hops) target) (sym e)
                  (final-Chain s (ws hops) known hops target qtype)
            | inl none_here ↦ elim (List-cases (filter_by_type dns all type_cname)) [
              | inl no_alias ↦
                  let e : chase_cname dns later (suc hops) target qtype ≡ [] = ground arith in
                  subst (Chain (suc hops) target) (sym e) stop
              | inr (c, cs, found) ↦ elim (Option-cases (to_rr dns c)) [
                | inl o ↦
                    let e : chase_cname dns later (suc hops) target qtype ≡ [] = ground arith in
                    subst (Chain (suc hops) target) (sym e) stop
                | inr (rr, o) ↦
                    let rest = chase_cname dns later hops c.value qtype in
                    let e : chase_cname dns later (suc hops) target qtype ≡ rr ∷ rest =
                      ground arith in
                    subst (Chain (suc hops) target) (sym e) (
                      link-Chain s (ws hops) known hops target c cs rr rest found o
                        (chase_cname-Chain hops c.value qtype))
              ]
            ]
          ]

      -- What goes into the answer for a name, whichever way it is found.
      cname_answer-Chain :
          (s : Store) (qname : Text) (qtype : ℕ) (answers : List Rr)
          → IsWellFormed s.records
          → cname_answer dns later (get_all qname s) qtype ≡ some answers
          → Chain (suc max_cname_hops) qname answers
      unfolding cname_answer
      cname_answer-Chain s qname qtype answers w h =
          elim (List-cases (filter_by_type dns (get_all qname s) type_cname)) [
            | inl no_alias ↦ ground arith
            | inr (c, cs, found) ↦ elim (Option-cases (to_rr dns c)) [
              | inl o ↦ ground arith
              | inr (rr, o) ↦
                  let rest = chase_cname dns later max_cname_hops c.value qtype in
                  let e : rr ∷ rest ≡ answers = ground arith in
                  subst (Chain (suc max_cname_hops) qname) e (
                    link-Chain s w known max_cname_hops qname c cs rr rest found o
                      (chase_cname-Chain max_cname_hops c.value qtype))
            ]
          ]

  -- However the store changes from one lookup of a query to the next, if it is well formed at
  -- each, and with a type table that has the name of CNAME, for any name and type the answer
  -- section of every message is a chain that starts at the name, with at most ten aliases behind
  -- the first: each alias is owned by the name before it, and the records at its end by the last
  -- name.
  pub serve_dns-Chain :
      (dns : Dns) (sv : Server) (s : Store) (later : ℕ → Store) (qname : Text) (qtype : ℕ)
      (msg : Msg)
      → IsWellFormed s.records
      → ((n : ℕ) → IsWellFormed (later n).records)
      → dns.type_to_string type_cname ≡ lit "CNAME"
      → (serve_dns dns sv s later qname qtype).sent ≡ some msg
      → Chain (suc max_cname_hops) qname msg.answer
  unfolding serve_dns write_answer
  serve_dns-Chain dns sv s later qname qtype msg w ws known h =
      let Answers = Chain (suc max_cname_hops) qname in
      let all = get_all qname s in
      elim (List-cases all) [
        | inl nothing ↦ let e : msg.answer ≡ [] = ground arith in subst Answers (sym e) stop
        | inr (r, recs, some_all) ↦ elim (List-cases (filter_by_type dns all qtype)) [
          | inr (x, xs, here) ↦
              let e : msg.answer ≡ records_to_rr dns (filter_by_type dns all qtype) =
                ground arith in
              subst Answers (sym e) (final-Chain dns s w known max_cname_hops qname qtype)
          | inl none_here ↦ elim (Option-cases (cname_answer dns later all qtype)) [
            | inl no_alias ↦ let e : msg.answer ≡ [] = ground arith in subst Answers (sym e) stop
            | inr (answers, o) ↦
                let e : msg.answer ≡ answers = ground arith in
                subst Answers (sym e)
                  (cname_answer-Chain dns later ws known s qname qtype answers w o)
          ]
        ]
      ]
