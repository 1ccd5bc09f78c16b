-- ===== src/Client/Forms.antt =====
-- The forms of logindialog.cpp, slot_loginMassage and slot_registerMassage of ckernel.cpp, and
-- where dealLoginRq of IMServer/CKernel.cpp reads.
use instance_message.Base.{
  ◌<◌, ◌≤◌, ◌⊎◌, ◌++◌, ◌≡◌, refl, ap, ◌∙◌, ◌||◌, not, Bool-cases, inl, inr, Option, none, some,
  Bytes, length, int_at, arith, leb, ◌==◌,
}
use instance_message.Text.{c_str, c_str_at, NoNul, strcpy_s, strcpy_s-reads, strcpy_s-fits}
use instance_message.Protocol.{def_login_rq, def_register_rq, def_name_max_length}
use instance_message.Protocol.Messages.{
  LoginRq, new_login_rq, encode_login_rq, RegisterRq, new_register_rq, encode_register_rq,
}
use instance_message.Protocol.Layout.{login_rq_layout, register_rq_layout}
use instance_message.Client.State.{QString, Codec, Client, with_sent}
use instance_message.Client.Slots.{
  Input, is_empty, remove_spaces, check_login, slot_login_massage, commit_login, check_register,
  commit_register, slot_register_massage, utf8_to_gb2312,
}

accepted_lengths :
    (tel password : QString)
    → check_login tel password ≡ Input.accepted
    → (length tel ≡ 11) × (length password < 20)
unfolding check_login
accepted_lengths tel password h =
    elim (Bool-cases (is_empty (remove_spaces tel) || is_empty (remove_spaces password))) [
      | inl e ↦ absurd (ground arith)
      | inr e ↦ elim (Bool-cases (not (length tel == 11) || leb 20 (length password))) [
        | inl f ↦ absurd (ground arith)
        | inr f ↦ ground arith
      ]
    ]

commits :
    (codec : Codec) (tel password : QString) (a b : Bytes) (c : Client)
    → check_login tel password ≡ Input.accepted
    → strcpy_s new_login_rq.tel (codec.to_std_string tel) ≡ some a
    → strcpy_s new_login_rq.password (codec.to_std_string password) ≡ some b
    → commit_login codec tel password c
      ≡ some (with_sent c (encode_login_rq (record new_login_rq { tel = a; password = b })))
unfolding commit_login slot_login_massage
commits codec tel password a b c h e f =
    ap
      (λ i. elim i as (λ _. Option Client) [
        | Input.accepted ↦ slot_login_massage codec tel password c
        | _ ↦ some c
      ])
      h
    ∙ rw e (rw f refl)

-- A login that the form accepts, of texts that `toStdString` turns into as many bytes and none of
-- them NUL, as it does for ASCII input, is sent in one packet, in which the server finds the type of
-- a login request, the telephone number and the password where it reads them: no copy into the
-- packet's arrays fails.
pub accepted_login_is_sent :
    (codec : Codec) (tel password : QString) (c : Client)
    → check_login tel password ≡ Input.accepted
    → length (codec.to_std_string tel) ≡ length tel
    → length (codec.to_std_string password) ≡ length password
    → NoNul (codec.to_std_string tel)
    → NoNul (codec.to_std_string password)
    → (packet : Bytes) × (commit_login codec tel password c ≡ some (with_sent c packet))
      × (int_at 0 packet ≡ some def_login_rq)
      × (c_str_at 4 packet ≡ some (codec.to_std_string tel))
      × (c_str_at 16 packet ≡ some (codec.to_std_string password))
accepted_login_is_sent codec tel password c h lt lp nt np =
    let (eleven, short) = accepted_lengths tel password h in
    let (a, ea, la, ra) =
      strcpy_s-fits new_login_rq.tel (codec.to_std_string tel) (omega arith) nt in
    let (b, eb, lb, rb) =
      strcpy_s-fits new_login_rq.password (codec.to_std_string password) (omega arith) np in
    let m : LoginRq = record new_login_rq { tel = a; password = b } in
    let (type, both, second) = login_rq_layout m (omega arith) la in
    (
      encode_login_rq m,
      commits codec tel password a b c h ea eb,
      type,
      ap c_str both ∙ strcpy_s-reads new_login_rq.tel (codec.to_std_string tel) b nt ea,
      ap c_str second ∙ rb,
    )

register_lengths :
    (name tel password : QString)
    → check_register name tel password ≡ Input.accepted
    → (length tel ≡ 11) × (length password < 20)
unfolding check_register
register_lengths name tel password h =
    elim (Bool-cases (
      is_empty (remove_spaces name)
      || (is_empty (remove_spaces tel) || is_empty (remove_spaces password)))) [
        | inl e ↦ absurd (ground arith)
        | inr e ↦
            elim (Bool-cases
              (leb 20 (length name) || (not (length tel == 11) || leb 20 (length password)))) [
                | inl f ↦ absurd (ground arith)
                | inr f ↦ ground arith
              ]
      ]

no_room : (dst src : Bytes) → length dst ≤ length src → strcpy_s dst src ≡ none
unfolding strcpy_s
no_room dst src h = ground arith

-- A registration that the form accepts goes on to the slot.
commits_registration :
    (codec : Codec) (name tel password : QString) (c : Client)
    → check_register name tel password ≡ Input.accepted
    → commit_register codec name tel password c ≡ slot_register_massage codec name tel password c
unfolding commit_register
commits_registration codec name tel password c h =
    ap
      (λ i. elim i as (λ _. Option Client) [
        | Input.accepted ↦ slot_register_massage codec name tel password c
        | _ ↦ some c
      ])
      h

-- A registration that is sent: where the server reads the type and the three texts.
pub record Registers (codec : Codec) (name tel password : QString) (c : Client)
    (result : Option Client) : Type 0 where
  pub packet : Bytes
  pub sent : result ≡ some (with_sent c packet)
  pub type : int_at 0 packet ≡ some def_register_rq
  pub tel_reads : c_str_at 4 packet ≡ some (codec.to_std_string tel)
  pub password_reads : c_str_at 16 packet ≡ some (codec.to_std_string password)
  pub name_reads : c_str_at 36 packet ≡ some (codec.from_unicode name)

short_name_is_sent :
    (codec : Codec) (name tel password : QString) (c : Client)
    → check_register name tel password ≡ Input.accepted
    → length (codec.from_unicode name) < def_name_max_length
    → length (codec.to_std_string tel) ≡ length tel
    → length (codec.to_std_string password) ≡ length password
    → NoNul (codec.from_unicode name)
    → NoNul (codec.to_std_string tel)
    → NoNul (codec.to_std_string password)
    → Registers codec name tel password c (commit_register codec name tel password c)
unfolding slot_register_massage utf8_to_gb2312
short_name_is_sent codec name tel password c h short lt lp nn nt np =
    let (eleven, few) = register_lengths name tel password h in
    let (n, en, ln, rn) = strcpy_s-fits new_register_rq.name (codec.from_unicode name) short nn in
    let (a, ea, la, ra) =
      strcpy_s-fits new_register_rq.tel (codec.to_std_string tel) (omega arith) nt in
    let (b, eb, lb, rb) =
      strcpy_s-fits new_register_rq.password (codec.to_std_string password) (omega arith) np in
    let m : RegisterRq = record new_register_rq { tel = a; password = b; name = n } in
    let (type, all, second, third) = register_rq_layout m (omega arith) la lb in
    record {
      packet = encode_register_rq m;
      sent = commits_registration codec name tel password c h ∙ rw (en, ea, eb) refl;
      type = type;
      tel_reads =
          ap c_str all
          ∙ strcpy_s-reads new_register_rq.tel (codec.to_std_string tel) (b ++ n) nt ea;
      password_reads =
          ap c_str second
          ∙ strcpy_s-reads new_register_rq.password (codec.to_std_string password) n np eb;
      name_reads = ap c_str third ∙ rn;
    }

-- What becomes of a registration that the form accepts, of a telephone number and a password that
-- `toStdString` turns into as many bytes, and of texts without a NUL: if the name takes fewer than
-- 20 bytes in GB2312, it is sent in one packet, in which the server finds the type of a registration
-- and the three texts where it reads them; and if it takes 20 bytes or more, as a name of fewer than
-- 20 characters can, which the form lets pass, the copy into the packet calls the handler of invalid
-- parameters.
pub accepted_registration_is_sent :
    (codec : Codec) (name tel password : QString) (c : Client)
    → check_register name tel password ≡ Input.accepted
    → length (codec.to_std_string tel) ≡ length tel
    → length (codec.to_std_string password) ≡ length password
    → NoNul (codec.from_unicode name)
    → NoNul (codec.to_std_string tel)
    → NoNul (codec.to_std_string password)
    → let result = commit_register codec name tel password c in
      ((length (codec.from_unicode name) < def_name_max_length)
        × Registers codec name tel password c result)
      ⊎ ((def_name_max_length ≤ length (codec.from_unicode name)) × (result ≡ none))
unfolding slot_register_massage utf8_to_gb2312
accepted_registration_is_sent codec name tel password c h lt lp nn nt np =
    elim (Bool-cases (leb def_name_max_length (length (codec.from_unicode name)))) [
      | inl e ↦
          let long : def_name_max_length ≤ length (codec.from_unicode name) = ground arith in
          inr (
            long,
            commits_registration codec name tel password c h
                ∙ rw (no_room new_register_rq.name (codec.from_unicode name) long) refl,
          )
      | inr e ↦
          let short : length (codec.from_unicode name) < def_name_max_length = ground arith in
          inl (short, short_name_is_sent codec name tel password c h short lt lp nn nt np)
    ]
