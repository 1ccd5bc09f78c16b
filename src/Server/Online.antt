-- ===== src/Server/Online.antt =====
-- Which packets change the map of online users of CKernel.cpp, and what no packet changes.
use instance_message.Base.{ℕ, ◌<◌, ◌≡◌, ◌≢◌, ap, Option, none, some, Bytes, int_at, two32, arith}
use instance_message.Protocol.{def_login_rq, def_offline_rq}
use instance_message.Server.World.{MySqlDriver, Handler, World}
use instance_message.Server.Kernel.Dispatch.{handler_table, deal_data}
use instance_message.Server.Dispatching.{handler_for, handled_by, dispatch_by_type}
use instance_message.Server.Rules.Kernel.{Obeys-call_handler}
use instance_message.Server.Frame.{keeping, after, Same, Keeps, Keeps-pure}

no_login : (type : ℕ) → type ≢ def_login_rq → handler_for type ≢ some Handler.login_rq
no_login type n e = ground arith

no_offline : (type : ℕ) → type ≢ def_offline_rq → handler_for type ≢ some Handler.offline_rq
no_offline type n e = ground arith

module _ {d : MySqlDriver} where
  Keeps-handled_by :
      (o : Option Handler) (buf : Bytes) (len from : ℕ)
      → o ≢ some Handler.login_rq
      → o ≢ some Handler.offline_rq
      → Keeps (handled_by {d = d} o buf len from)
  Keeps-handled_by none buf len from n m = Keeps-pure tt
  Keeps-handled_by (some h) buf len from n m =
      (Obeys-call_handler {r = keeping} h buf len from (λ e. n (ap some e)) (λ e. m (ap some e))
        tt).holds

  -- Only a login request and an offline request change who is online: with the table initialised,
  -- a packet of any other type leaves the map of online users, the table and the clients as they
  -- were, whatever its bytes, and also when its handler stops the server.
  pub others_keep_online :
      (buf : Bytes) (len from type : ℕ) (w : World d)
      → w.arr_fun ≡ handler_table
      → int_at 0 buf ≡ some type
      → type < two32
      → type ≢ def_login_rq
      → type ≢ def_offline_rq
      → Same w (after (deal_data buf len from w))
  others_keep_online buf len from type w t e h n m =
      rw (dispatch_by_type buf len from type w t e h) (
        (Keeps-handled_by (handler_for type) buf len from (no_login type n)
            (no_offline type m)).same
          w)
