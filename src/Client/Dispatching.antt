-- ===== src/Client/Dispatching.antt =====
-- slot_transmitData of IMClient/ckernel.cpp: which handler a packet reaches.
use instance_message.Base.{
  ℕ, zero, suc, ◌+◌, ◌<◌, ◌≤◌, ◌≡◌, refl, Bool, Bool-cases, inl, inr, Option, none, some, Bytes,
  int_at, get_elem?, two32, ◌==◌, if◌then◌else◌, arith, ltb, ltb→lt,
}
use instance_message.Protocol.{
  def_register_rs, def_login_rs, def_user_info, def_offline_rq, def_chat_rq, def_chat_rs,
  def_add_friend_rq, def_add_friend_rs,
}
use instance_message.Client.State.{Codec, Client}
use instance_message.Client.Received.{
  Handler, init_fun_arr, index_of, call_handler, slot_transmit_data,
}

-- The packet types in the order in which IMServer/config.h numbers them; a client that is sent its
-- own requests, which only the server handles, passes over them.
abbrev pub handler_for : ℕ → Option Handler
handler_for type =
    if type == def_register_rs
    then some Handler.register_rs
    else (if type == def_login_rs
        then some Handler.login_rs
        else (if type == def_add_friend_rq
            then some Handler.add_friend_rq
            else (if type == def_add_friend_rs
                then some Handler.add_friend_rs
                else (if type == def_user_info
                    then some Handler.user_info
                    else (if type == def_chat_rq
                        then some Handler.chat_rq
                        else (if type == def_chat_rs
                            then some Handler.chat_rs
                            else (if type == def_offline_rq
                                then some Handler.offline_rq
                                else none)))))))

entry_at :
    (index : ℕ) → index < 10 → get_elem? init_fun_arr index ≡ some (handler_for (index + 1001))
unfolding init_fun_arr
entry_at zero h = refl
entry_at (suc zero) h = refl
entry_at (suc (suc zero)) h = refl
entry_at (suc (suc (suc zero))) h = refl
entry_at (suc (suc (suc (suc zero)))) h = refl
entry_at (suc (suc (suc (suc (suc zero))))) h = refl
entry_at (suc (suc (suc (suc (suc (suc zero)))))) h = refl
entry_at (suc (suc (suc (suc (suc (suc (suc zero))))))) h = refl
entry_at (suc (suc (suc (suc (suc (suc (suc (suc zero)))))))) h = refl
entry_at (suc (suc (suc (suc (suc (suc (suc (suc (suc zero))))))))) h = refl
entry_at (suc (suc (suc (suc (suc (suc (suc (suc (suc (suc n)))))))))) h = absurd (omega arith)

type_of_index : (type : ℕ) → type < two32 → index_of type < 10 → type ≡ index_of type + 1001
unfolding index_of
type_of_index type h k = omega arith

no_entry : (type : ℕ) → type < two32 → 10 ≤ index_of type → handler_for type ≡ none
unfolding index_of
no_entry type h k = ground arith

-- Nothing is done for a type that has no handler.
abbrev pub handled_by : Codec → Bool → Option Handler → Bytes → Client → Option Client
handled_by codec answer none buf c = some c
handled_by codec answer (some h) buf c = call_handler codec answer h buf c

-- At the client, a packet whose first four bytes are the type goes to the handler of that type and
-- to no other, and a packet of any other type, negative ones included, leaves the client as it was.
pub transmit_by_type :
    (codec : Codec) (answer : Bool) (buf : Bytes) (type : ℕ) (c : Client)
    → int_at 0 buf ≡ some type
    → type < two32
    → slot_transmit_data codec answer buf c ≡ handled_by codec answer (handler_for type) buf c
unfolding slot_transmit_data
transmit_by_type codec answer buf type c e h = elim (Bool-cases (ltb (index_of type) 10)) [
  | inl inside ↦ ground (
    arith,
    entry_at (index_of type) (ltb→lt _ _ inside),
    type_of_index type h (ltb→lt _ _ inside),
  )
  | inr outside ↦ ground (arith, no_entry type h)
]
