-- ===== src/Client/Examples.antt =====
-- The theorems on the client at two short packets and at one client with a friend.
use instance_message.Base.{
  ◌<◌, ◌≤◌, ◌⊎◌, ascii, ℕ, ◌≡◌, refl, true, false, none, some, List, [], ◌∷◌, Bytes, arith, int_at,
  int_bytes,
}
use instance_message.Protocol.{def_login_rq}
use instance_message.Base.{◌⊎◌, replicate}
use instance_message.Text.{c_str, strcpy_s}
use instance_message.Protocol.{def_add_friend_rq, def_add_friend_refuse}
use instance_message.Protocol.Messages.{
  new_add_friend_rq, encode_add_friend_rq, new_add_friend_rs, encode_add_friend_rs,
}
use instance_message.Client.Silence.{Answer, sends_only_answers}
use instance_message.Client.Received.{deal_add_friend_rq}
use instance_message.Client.TcpClient.{recv_data}
use instance_message.Client.Reassembly.{calls, stream_of, packets_reassembled}
use instance_message.Client.State.{QString, with_sent, Codec, FriendForm, Client}
use instance_message.Client.Received.{slot_transmit_data, init_fun_arr, set_dialog_info}
use instance_message.Text.{c_str_at}
use instance_message.Client.Slots.{
  Input, check_login, check_register, commit_login, commit_register,
}
use instance_message.Client.Forms.{Registers, accepted_login_is_sent, accepted_registration_is_sent}

abbrev two_packets : List Bytes
two_packets = (1 ∷ 2 ∷ 3 ∷ []) ∷ (4 ∷ []) ∷ []

abbrev pieces : List (List ℕ)
pieces = (1 ∷ 2 ∷ []) ∷ (1 ∷ []) ∷ []

packets_reassembled_example : recv_data 3 0 (stream_of two_packets) (calls pieces) ≡ two_packets
packets_reassembled_example = packets_reassembled 3 0 two_packets pieces (omega arith) (omega arith)

-- A codec that leaves every byte as it is.
abbrev pub plain : Codec
plain = record { to_unicode = λ s. s; from_unicode = λ s. s; to_std_string = λ s. s }

abbrev pub friend : ℕ → FriendForm
friend status = record { id = 2; name = []; feeling = []; icon_id = 4; status = status }

abbrev pub client : FriendForm → Client
client form = record {
  user_id = 1;
  user_name = [];
  forms = (2, form) ∷ [];
  dialogs = (2, set_dialog_info 2 []) ∷ [];
  panel = none;
  layout = 2 ∷ [];
  login_visible = false;
  list_visible = true;
  boxes = [];
  sent = [];
  exited = false;
}

abbrev number : QString
number = ascii "13800000000"

accepts_login : check_login number (ascii "secret") ≡ Input.accepted
unfolding check_login
accepts_login = refl

accepted_login_is_sent_example :
    (packet : Bytes) × (commit_login plain number (ascii "secret") (client (friend 0))
      ≡ some (with_sent (client (friend 0)) packet))
    × (int_at 0 packet ≡ some def_login_rq)
    × (c_str_at 4 packet ≡ some number)
    × (c_str_at 16 packet ≡ some (ascii "secret"))
accepted_login_is_sent_example =
    accepted_login_is_sent plain number (ascii "secret") (client (friend 0)) accepts_login refl refl
      (omega arith) (omega arith)

accepts_name : check_register (ascii "Tom") number (ascii "secret") ≡ Input.accepted
unfolding check_register
accepts_name = refl

accepted_registration_is_sent_example :
    let result = commit_register plain (ascii "Tom") number (ascii "secret") (client (friend 0)) in
    ((3 < 20) × Registers plain (ascii "Tom") number (ascii "secret") (client (friend 0)) result)
    ⊎ ((20 ≤ 3) × (result ≡ none))
accepted_registration_is_sent_example =
    accepted_registration_is_sent plain (ascii "Tom") number (ascii "secret") (client (friend 0))
      accepts_name refl refl (omega arith) (omega arith) (omega arith)

abbrev asks_friendship : Bytes
asks_friendship = encode_add_friend_rq (record new_add_friend_rq { user_id = 5 })

-- The answer of user 1 to user 5.
abbrev refusal : Bytes
refusal = encode_add_friend_rs (record new_add_friend_rs {
  friend_id = 5;
  user_id = 1;
  friend_name = 0 ∷ replicate 19 0;
  result = def_add_friend_refuse;
})

asked :
    (int_at 0 asks_friendship ≡ some def_add_friend_rq)
    × (slot_transmit_data plain false asks_friendship (client (friend 0))
        ≡ some (with_sent (client (friend 0)) refusal))
unfolding int_at encode_add_friend_rq int_bytes slot_transmit_data init_fun_arr deal_add_friend_rq
    c_str strcpy_s
asked = (refl, refl)

sends_only_answers_example :
    ((with_sent (client (friend 0)) refusal).sent ≡ [])
    ⊎ ((def_add_friend_rq ≡ def_add_friend_rq)
        × Answer false asks_friendship (client (friend 0)) (with_sent (client (friend 0)) refusal))
sends_only_answers_example =
    sends_only_answers plain false asks_friendship def_add_friend_rq (client (friend 0))
      (with_sent (client (friend 0)) refusal) asked.0 (omega arith) asked.1
