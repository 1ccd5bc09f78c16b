-- ===== src/Server/Kernel/Dispatch.antt =====
-- IMServer/CKernel.cpp, initFunArrry, startServer and dealData: the table of handlers and the
-- dispatch of a received packet by its type.
use instance_message.Base.{
  ℕ, ◌-◌, Bool, true, ◌&&◌, Option, none, some, List, Bytes, if◌then◌else◌, ltb, int_at, set,
  get_elem?, replicate, sub32, non_negative,
}
use instance_message.Protocol.{
  def_arrry_fun_length, def_protocol_base, def_register_rq, def_login_rq, def_offline_rq,
  def_chat_rq, def_add_friend_rq, def_add_friend_rs,
}
use instance_message.Server.World.{
  MySqlDriver, Handler, M, done, stopped, out_of_bounds, pure, or_stop, ◌>>=◌, ◌>>◌,
}
use instance_message.Server.Kernel.Account.{deal_register_rq, deal_login_rq}
use instance_message.Server.Kernel.Chat.{deal_offline_rq, deal_chat_rq}
use instance_message.Server.Kernel.Friends.{deal_add_friend_rq, deal_add_friend_rs}

-- m_arrFun[ type - _DEF_PROTOCOL_BASE - 1 ] = handler
store_handler : ℕ → Handler → List (Option Handler) → List (Option Handler)
store_handler type h arr = set arr (type - def_protocol_base - 1) (some h)

unfoldable pub handler_table : List (Option Handler)
unfolding store_handler
handler_table = store_handler def_add_friend_rs Handler.add_friend_rs (
    store_handler def_add_friend_rq Handler.add_friend_rq (
      store_handler def_chat_rq Handler.chat_rq (
        store_handler def_offline_rq Handler.offline_rq (
          store_handler def_login_rq Handler.login_rq (
            store_handler def_register_rq Handler.register_rq
              (replicate def_arrry_fun_length none))))))

-- int index = type - _DEF_PROTOCOL_BASE - 1, which wraps around.
unfoldable pub index_of : ℕ → ℕ
index_of type = sub32 (sub32 type def_protocol_base) 1

module _ {d : MySqlDriver} where
  unfoldable pub init_fun_arrry : M d (Unit {0})
  unfolding handler_table
  init_fun_arrry w = done tt (record w { arr_fun = handler_table })

  -- startServer up to `run`, which accepts clients until the process ends.
  unfoldable pub start_server : M d Bool
  unfolding init_fun_arrry
  start_server = do init_fun_arrry; pure true

  unfoldable pub call_handler : Handler → Bytes → ℕ → ℕ → M d (Unit {0})
  call_handler Handler.register_rq = deal_register_rq
  call_handler Handler.login_rq = deal_login_rq
  call_handler Handler.offline_rq = deal_offline_rq
  call_handler Handler.chat_rq = deal_chat_rq
  call_handler Handler.add_friend_rq = deal_add_friend_rq
  call_handler Handler.add_friend_rs = deal_add_friend_rs

  -- m_arrFun[ index ]
  abbrev pub fun_at : ℕ → M d (Option Handler)
  fun_at index w = elim (get_elem? w.arr_fun index) [
    | none ↦ stopped out_of_bounds w
    | some entry ↦ done entry w
  ]

  unfoldable pub deal_data : Bytes → ℕ → ℕ → M d (Unit {0})
  unfolding index_of
  deal_data data_buf len from = do
    type ← or_stop out_of_bounds (int_at 0 data_buf)
    let index = index_of type
    if non_negative index && ltb index def_arrry_fun_length
        then (do
          entry ← fun_at index
          elim entry [ some h ↦ call_handler h data_buf len from | none ↦ pure tt ])
        else pure tt
