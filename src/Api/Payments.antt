-- ===== src/Api/Payments.antt =====
-- `handleCreatePayment` and `handleGetPayment` over the MemoryStore.
use Prim.Native.String.{◌++◌ as ◌+++◌}
use go_handbook_for_software.Base.{ℕ, ◌+◌, Option, String, str_dec}
use go_handbook_for_software.Base.Dict
use go_handbook_for_software.Http.{Ran, respond, no_response}
use go_handbook_for_software.Api.{
  Payment, MemoryStore, memory_store, CreatePaymentRequest, Request, Wire, Server, requested,
  handle_create_payment, handle_get_payment,
}

module _ (pay_id : ℕ → String) (wire : Wire) where
  abbrev pub post_run : Request → Server MemoryStore → Ran (Server MemoryStore)
  post_run r srv = handle_create_payment (memory_store pay_id) wire r srv

  abbrev pub get_run : Request → Server MemoryStore → Ran (Server MemoryStore)
  get_run r srv = handle_get_payment (memory_store pay_id) wire r srv

  abbrev pub status_sent : Ran (Server MemoryStore) → Option ℕ
  status_sent ran = (respond ran.events no_response).status

  module _ (r : Request) (srv : Server MemoryStore) (req : CreatePaymentRequest) where
    abbrev new_payment : Payment
    new_payment = record (requested req) { id = pay_id (srv.store.seq + 1); status = "created" }

    abbrev after : Server MemoryStore
    after = record srv {
      store = record {
        by_id = Dict.insert str_dec (pay_id (srv.store.seq + 1)) new_payment srv.store.by_id;
        seq = srv.store.seq + 1;
      };
    }
