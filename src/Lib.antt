-- ===== src/Lib.antt =====
-- dynupdate, a CoreDNS plugin that serves DNS records from a store that can be changed while the
-- server runs. The root package has a store (store.go) with a file behind it, the record type with
-- its validation and conversion (record.go), the DNS handler (dynupdate.go), two management servers,
-- REST (api.go) and gRPC (grpc_server.go), that share the authentication of auth.go, and the set-up
-- (setup.go). A query reads the store; a management call is authenticated, validates its record,
-- changes the store, and has the snapshot of that change written to the file; a goroutine of the
-- store loads the file again when another program has changed it.
--
-- What models which part:
-- - Text: Go strings, as lists of bytes, with the functions of the package strings; Net: net.ParseIP
--   and IP.To4; Assoc: Go maps, as association lists; Base: numbers, lists and results.
-- - Record (record.go): `validate` is Record.Validate, with the record as it is left also after an
--   error, `to_rr` is ToRR and `split_txt` is splitTXT.
-- - Policy (store.go): the type SyncPolicy, ParseSyncPolicy and String.
-- - Store (store.go): the struct Store and its methods that hold the lock `mu` throughout: Get,
--   GetAll, List, applyUpsert, applyDelete, applyDeleteByType, applyDeleteAll. Store.Mutation has the
--   four mutations as one type and the abstract view of the store.
-- - Persist (store.go): persistSnapshot, updateRecordGaugeLocked, loadFromBytes, loadOrCreate,
--   NewStore and its options, on a disk that maps paths to files.
-- - Sync (store.go): checkReload, run and Stop, and how they interleave with mutations and with
--   persistSnapshot, as a step relation; a step is what happens between two points where a lock is
--   taken or released, and the ticker may fire at any point. Sync.Checked has checkReload as one
--   function, Sync.Missed what it does while another program writes the file, Sync.Stopped what is
--   left of `run` after Stop, Sync.Begin the system that NewStore starts, Sync.Handled a mutation that
--   is written at once as such steps.
-- - Dns (dynupdate.go): ServeDNS, chaseCNAME and the three kinds of reply. The source takes the lock
--   for each lookup of a query, so each finds a store of its own.
-- - Auth (auth.go): HTTPMiddleware and UnaryInterceptor. Proto (grpc_server.go): recordToProto and
--   protoToRecord.
-- - Api: Upsert, Delete, DeleteByType and DeleteAll of store.go, each a mutation followed by the
--   writing of its snapshot, and the handlers of api.go; Api.Grpc: those of grpc_server.go.
--   Api.Serve: the routes of `handler` and the service of grpc_server.go, behind the authentication;
--   Api.Serve.Session: requests and calls, one after another.
-- - Setup (setup.go): `parse_config` is parseConfig, with parseNestedBlock, parseAPIDirective and
--   parseGRPCDirective, over a cursor that stands for caddy.Controller.
-- - TlsHelper (tls_helper.go): buildTLSConfig.
-- - Servers (api.go, grpc_server.go, setup.go, ready.go): Start and Stop of both servers, which are
--   alike, on a map of the listeners that are open; setup, its OnStartup and OnShutdown, and Ready.
-- - Examples: concrete surroundings, and the theorems at concrete inputs.
--
-- Code from outside the repository is a parameter: `Unicode` (what package strings does on text
-- that is not ASCII), `Dns` (tests and tables of github.com/miekg/dns), `Json` (encoding/json),
-- `Os` (the answers of the operating system in one run), `Server` of Dns (what CoreDNS does around
-- a query), `Controller` (the cursor of Caddy over the tokens of a Corefile), `Library` (the parser
-- of durations, which computes their fractions in floating point, and the normalisation of zones),
-- `Files` (certificates and crypto/x509) and `Env` (which addresses can be listened at).
--
-- Bounds and fuel. `generation` is a uint64 and wraps in `next_generation`; the theorems on writing
-- ask that it has not wrapped. The fields of a wire message are reduced to the width of their type.
-- `chase_cname` recurses on the hops that are left, which is the bound of the source, and `chunks`
-- on as many rounds as the text has bytes, which is enough since each round takes one at least. The
-- loops of the parser run on fuel; more than the tokens that are left is enough, since each round
-- loads one.
--
-- Not modelled: the declarations of metrics.go, the registration of the plugin with CoreDNS, what
-- happens to requests that are being served at a shutdown, and the generated code under proto.
-- Paths of requests are given by their segments, as http.ServeMux has them after cleaning. A
-- handler runs without another request in between; what interleaving can do to the store and its
-- file is in Sync. `maxRecords` and `reload` are signed in the source and only tested for being
-- positive: a negative one acts as 0. A Go map has no order of its entries; the model has one,
-- which Persist.Order exchanges for any other. The ids and question sections of messages, logs and
-- the texts of errors are left out.
mod Base
pub mod Text
pub mod Assoc
pub mod Net
pub mod Record
pub mod Policy
pub mod Store
pub mod Persist
pub mod Sync
pub mod Auth
pub mod Proto
pub mod Dns
pub mod Api
pub mod Setup
pub mod TlsHelper
pub mod Servers
pub mod Examples
