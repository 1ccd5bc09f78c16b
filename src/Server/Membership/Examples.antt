-- ===== src/Server/Membership/Examples.antt =====
-- The theorems on accounts at a small database with one account.
use instance_message.Base.{
  List, ℕ, ◌≡◌, refl, none, some, [], ◌∷◌, ◌++◌, Bytes, ascii, replicate, put, arith, int_bytes,
}
use instance_message.Text.{c_str_at, c_str}
use instance_message.Protocol.Messages.{
  new_register_rq, encode_register_rq, new_login_rq, encode_login_rq,
}
use instance_message.Server.World.{World, done}
use instance_message.Server.Kernel.Account.{deal_register_rq, deal_login_rq}
use instance_message.Server.Frame.{after}
use instance_message.Server.Registration.{Registered, registration_refines}
use instance_message.Server.Sessions.{login_refines}
use instance_message.Server.Accounts.{Account, Distinct, login}
use instance_message.Server.Accounts.Sample.{small, small_table}
use instance_message.Server.Membership.{
  Request, none_yet, one_more, Registrations-Distinct, registered_can_log_in,
}

abbrev lilly : Account
lilly = record {
  id = 0;
  tel = ascii "13800000000";
  name = ascii "Lilly";
  password = ascii "111111";
}

abbrev server : World small
server = record {
  db = record { table = lilly ∷ []; pending = none };
  online = [];
  arr_fun = [];
  clients = (10, 110) ∷ [];
  trace = [];
}

abbrev tom_registers : Bytes
tom_registers = encode_register_rq (record new_register_rq {
  tel = ascii "13900000000" ++ (0 ∷ []);
  password = ascii "secret" ++ replicate 14 0;
  name = ascii "Tom" ++ replicate 17 0;
})

abbrev tom_logs_in : Bytes
tom_logs_in = encode_login_rq (record new_login_rq {
  tel = ascii "13900000000" ++ (0 ∷ []);
  password = ascii "secret" ++ replicate 14 0;
})

registers_texts :
    (c_str_at 4 tom_registers ≡ some (ascii "13900000000"))
    × (c_str_at 36 tom_registers ≡ some (ascii "Tom"))
    × (c_str_at 16 tom_registers ≡ some (ascii "secret"))
unfolding c_str encode_register_rq int_bytes
registers_texts = (refl, refl, refl)

logs_in_texts :
    (c_str_at 4 tom_logs_in ≡ some (ascii "13900000000"))
    × (c_str_at 16 tom_logs_in ≡ some (ascii "secret"))
unfolding c_str encode_login_rq int_bytes
logs_in_texts = (refl, refl)

abbrev tom : Request
tom = record {
  buf = tom_registers;
  tel = ascii "13900000000";
  name = ascii "Tom";
  password = ascii "secret";
  reads_tel = registers_texts.0;
  reads_name = registers_texts.1;
  reads_password = registers_texts.2;
  tel_fits = omega arith;
  name_fits = omega arith;
  password_fits = omega arith;
}

registration_refines_example :
    (v : World small) × (deal_register_rq tom_registers 56 10 server ≡ done tt v)
    × Registered small_table (ascii "13900000000") (ascii "Tom") (ascii "secret") 10 server v
registration_refines_example =
    registration_refines small_table tom_registers 56 10 (ascii "13900000000") (ascii "Tom")
      (ascii "secret") registers_texts.0 registers_texts.1 registers_texts.2 (omega arith)
      (omega arith) (omega arith) server

login_refines_example :
    (after (deal_login_rq tom_logs_in 36 10 server)).online
    ≡ login (ascii "13900000000") (ascii "secret") 10 (lilly ∷ []) []
login_refines_example =
    login_refines small_table tom_logs_in 36 10 (ascii "13900000000") (ascii "secret")
      logs_in_texts.0 logs_in_texts.1 (omega arith) server (omega arith)

-- The world after the registration.
abbrev enrolled :
    (v : World small) × (deal_register_rq tom.buf 56 10 server ≡ done tt v)
    × Registered small_table tom.tel tom.name tom.password 10 server v
enrolled =
    registration_refines small_table tom.buf 56 10 tom.tel tom.name tom.password tom.reads_tel
      tom.reads_name tom.reads_password tom.tel_fits tom.name_fits tom.password_fits server

Registrations-Distinct_example : Distinct (small_table.accounts enrolled.0.db)
Registrations-Distinct_example =
    Registrations-Distinct small_table (one_more tom 56 10 none_yet enrolled.1) (tt, tt)

-- A second registration, of another number and name, before Tom logs in.
abbrev ann_registers : Bytes
ann_registers = encode_register_rq (record new_register_rq {
  tel = ascii "13700000000" ++ (0 ∷ []);
  password = ascii "hidden" ++ replicate 14 0;
  name = ascii "Ann" ++ replicate 17 0;
})

ann_texts :
    (c_str_at 4 ann_registers ≡ some (ascii "13700000000"))
    × (c_str_at 36 ann_registers ≡ some (ascii "Ann"))
    × (c_str_at 16 ann_registers ≡ some (ascii "hidden"))
unfolding c_str encode_register_rq int_bytes
ann_texts = (refl, refl, refl)

abbrev ann : Request
ann = record {
  buf = ann_registers;
  tel = ascii "13700000000";
  name = ascii "Ann";
  password = ascii "hidden";
  reads_tel = ann_texts.0;
  reads_name = ann_texts.1;
  reads_password = ann_texts.2;
  tel_fits = omega arith;
  name_fits = omega arith;
  password_fits = omega arith;
}

abbrev both :
    (v : World small) × (deal_register_rq ann.buf 56 10 enrolled.0 ≡ done tt v)
    × Registered small_table ann.tel ann.name ann.password 10 enrolled.0 v
both =
    registration_refines small_table ann.buf 56 10 ann.tel ann.name ann.password ann.reads_tel
      ann.reads_name ann.reads_password ann.tel_fits ann.name_fits ann.password_fits enrolled.0

registered_can_log_in_example :
    (id : ℕ) × (more : List Account) × (small_table.accounts both.0.db
      ≡ lilly ∷ record { id = id; tel = tom.tel; name = tom.name; password = tom.password } ∷ more)
    × ((after (deal_login_rq tom_logs_in 36 30 both.0)).online ≡ put id 30 [])
registered_can_log_in_example =
    registered_can_log_in small_table tom 56 10 tom_logs_in 36 30 server enrolled.0 both.0
      enrolled.1 refl (one_more ann 56 10 none_yet both.1) logs_in_texts.0 logs_in_texts.1
      (omega arith)
