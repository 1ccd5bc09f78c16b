-- ===== src/Server/Dispatching.antt =====
-- dealData of CKernel.cpp: which handler a packet reaches.
use instance_message.Base.{
  ℕ, zero, suc, ◌+◌, ◌<◌, ◌≡◌, refl, Option, none, some, Bytes, int_at, get_elem?, two32, ◌==◌,
  if◌then◌else◌, arith, Bool-cases, inl, inr, ltb, ltb→lt, ◌<◌, ◌≤◌,
}
use instance_message.Protocol.{
  def_register_rq, def_login_rq, def_offline_rq, def_chat_rq, def_add_friend_rq, def_add_friend_rs,
}
use instance_message.Server.World.{MySqlDriver, Handler, World, M, pure}
use instance_message.Server.Kernel.Dispatch.{handler_table, index_of, call_handler, deal_data}

-- The handler of a packet type, told from the type alone.
abbrev pub handler_for : ℕ → Option Handler
handler_for type =
    if type == def_register_rq
    then some Handler.register_rq
    else (if type == def_login_rq
        then some Handler.login_rq
        else (if type == def_add_friend_rq
            then some Handler.add_friend_rq
            else (if type == def_add_friend_rs
                then some Handler.add_friend_rs
                else (if type == def_chat_rq
                    then some Handler.chat_rq
                    else (if type == def_offline_rq then some Handler.offline_rq else none)))))

table_entry :
    (index : ℕ) → index < 10 → get_elem? handler_table index ≡ some (handler_for (index + 1001))
unfolding handler_table
table_entry zero h = refl
table_entry (suc zero) h = refl
table_entry (suc (suc zero)) h = refl
table_entry (suc (suc (suc zero))) h = refl
table_entry (suc (suc (suc (suc zero)))) h = refl
table_entry (suc (suc (suc (suc (suc zero))))) h = refl
table_entry (suc (suc (suc (suc (suc (suc zero)))))) h = refl
table_entry (suc (suc (suc (suc (suc (suc (suc zero))))))) h = refl
table_entry (suc (suc (suc (suc (suc (suc (suc (suc zero)))))))) h = refl
table_entry (suc (suc (suc (suc (suc (suc (suc (suc (suc zero))))))))) h = refl
table_entry (suc (suc (suc (suc (suc (suc (suc (suc (suc (suc n)))))))))) h = absurd (omega arith)

index_in_table : (type : ℕ) → type < two32 → index_of type < 10 → type ≡ index_of type + 1001
unfolding index_of
index_in_table type h k = omega arith

index_outside : (type : ℕ) → type < two32 → 10 ≤ index_of type → handler_for type ≡ none
unfolding index_of
index_outside type h k = ground arith

module _ {d : MySqlDriver} where
  -- Nothing is done for a type that has no handler.
  abbrev pub handled_by : Option Handler → Bytes → ℕ → ℕ → M d (Unit {0})
  handled_by none buf len from = pure tt
  handled_by (some h) buf len from = call_handler h buf len from

  -- Once the table is initialised, a packet whose first four bytes are the type goes to the handler
  -- of that type and to no other, and a packet of any other type, negative ones included, leaves
  -- the server as it was.
  pub dispatch_by_type :
      (buf : Bytes) (len from type : ℕ) (w : World d)
      → w.arr_fun ≡ handler_table
      → int_at 0 buf ≡ some type
      → type < two32
      → deal_data buf len from w ≡ handled_by (handler_for type) buf len from w
  unfolding deal_data
  dispatch_by_type buf len from type w t e h = elim (Bool-cases (ltb (index_of type) 10)) [
    | inl inside ↦ ground (
      arith,
      table_entry (index_of type) (ltb→lt _ _ inside),
      index_in_table type h (ltb→lt _ _ inside),
    )
    | inr outside ↦ ground (arith, index_outside type h)
  ]
