-- ===== src/Server/Short.antt =====
-- Packets that are shorter than the struct that their handler reads them as: no handler of
-- CKernel.cpp compares `len` with the size of its struct.
use instance_message.Base.{
  ℕ, zero, suc, ◌+◌, ◌<◌, ◌≡◌, refl, ap, ◌∙◌, inl, inr, ◌⊎◌, none, some, [], ◌∷◌, Bytes, length,
  int_at, two32, arith,
}
use instance_message.Text.{c_str, c_str_at}
use instance_message.Server.World.{MySqlDriver, Handler, World, stopped, out_of_bounds}
use instance_message.Server.Kernel.Account.{deal_register_rq, deal_login_rq}
use instance_message.Server.Kernel.Chat.{deal_chat_rq, deal_offline_rq}
use instance_message.Server.Kernel.Friends.{deal_add_friend_rq, deal_add_friend_rs}
use instance_message.Server.Kernel.Dispatch.{handler_table, call_handler, deal_data}
use instance_message.Server.Dispatching.{handler_for, handled_by, dispatch_by_type}

short_int : (n : ℕ) (buf : Bytes) → length buf < n + 4 → int_at n buf ≡ none
unfolding int_at
short_int zero [] h = refl
short_int zero (a ∷ []) h = refl
short_int zero (a ∷ b ∷ []) h = refl
short_int zero (a ∷ b ∷ c ∷ []) h = refl
short_int zero (a ∷ b ∷ c ∷ d ∷ rest) h = absurd (omega arith)
short_int (suc n) [] h = refl
short_int (suc n) (x ∷ rest) h = short_int n rest (omega arith)

short_text : (n : ℕ) (buf : Bytes) → length buf < suc n → c_str_at n buf ≡ none
unfolding c_str
short_text zero [] h = refl
short_text zero (x ∷ rest) h = absurd (omega arith)
short_text (suc n) [] h = refl
short_text (suc n) (x ∷ rest) h = short_text n rest (omega arith)

-- The bytes that a handler reads at its first look at the packet, up to the last of them.
abbrev pub read_first : Handler → ℕ
read_first Handler.register_rq = 5
read_first Handler.login_rq = 5
read_first Handler.offline_rq = 8
read_first Handler.chat_rq = 12
read_first Handler.add_friend_rq = 29
read_first Handler.add_friend_rs = 8

abbrev pub TooShort : Bytes → Type 0
TooShort buf =
    (length buf < 4)
    ⊎ ((type : ℕ) × (h : Handler) × (int_at 0 buf ≡ some type)
        × (type < two32)
        × (handler_for type ≡ some h)
        × (length buf < read_first h))

module _ {d : MySqlDriver} where
  short_for_handler :
      (h : Handler) (buf : Bytes) (len from : ℕ) (w : World d)
      → length buf < read_first h
      → call_handler h buf len from w ≡ stopped out_of_bounds w
  unfolding call_handler deal_register_rq deal_login_rq deal_offline_rq deal_chat_rq
      deal_add_friend_rq deal_add_friend_rs
  short_for_handler Handler.register_rq buf len from w h = rw (short_text 4 buf h) refl
  short_for_handler Handler.login_rq buf len from w h = rw (short_text 4 buf h) refl
  short_for_handler Handler.offline_rq buf len from w h = rw (short_int 4 buf h) refl
  short_for_handler Handler.chat_rq buf len from w h = rw (short_int 8 buf h) refl
  short_for_handler Handler.add_friend_rq buf len from w h = rw (short_text 28 buf h) refl
  short_for_handler Handler.add_friend_rs buf len from w h = rw (short_int 4 buf h) refl

  no_type :
      (buf : Bytes) (len from : ℕ) (w : World d)
      → int_at 0 buf ≡ none
      → deal_data buf len from w ≡ stopped out_of_bounds w
  unfolding deal_data
  no_type buf len from w e = rw e refl

  -- A packet that ends before the end of its type, or before the first field that the handler of
  -- its type reads, is read outside its buffer, whatever length comes with it.
  pub short_packet_read_outside :
      (buf : Bytes) (len from : ℕ) (w : World d)
      → w.arr_fun ≡ handler_table
      → TooShort buf
      → deal_data buf len from w ≡ stopped out_of_bounds w
  short_packet_read_outside buf len from w t (inl short) =
      no_type buf len from w (short_int 0 buf short)
  short_packet_read_outside buf len from w t (inr (type, h, typed, small, e, short)) =
      dispatch_by_type buf len from type w t typed small
      ∙ ap (λ o. handled_by o buf len from w) e
      ∙ short_for_handler h buf len from w short
