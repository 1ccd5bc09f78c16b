-- ===== src/Server/Sql.antt =====
-- The SQL statements that the handlers of IMServer/CKernel.cpp print, as functions of the values
-- that `sprintf_s` puts in.
use instance_message.Base.{ℕ, ◌++◌, [], ◌∷◌, Bytes, ascii}
use instance_message.Text.Decimal.{format_d}

unfoldable pub select_friends : ℕ → Bytes
select_friends id = ascii "select idB from t_friend where idA=" ++ (format_d id ++ ascii ";")

-- The same without the semicolon, as `dealOfflineRq` has it.
unfoldable pub select_friends_offline : ℕ → Bytes
select_friends_offline id = ascii "select idB from t_friend where idA=" ++ format_d id

unfoldable pub select_info : ℕ → Bytes
select_info id =
    ascii "select name,feeling,iconid from t_user where id=" ++ (format_d id ++ ascii ";")

unfoldable pub select_tel : Bytes → Bytes
select_tel tel = ascii "select tel from t_user where tel='" ++ (tel ++ ascii "';")

unfoldable pub select_name : Bytes → Bytes
select_name name = ascii "select name from t_user where name='" ++ (name ++ ascii "';")

unfoldable pub select_pass : Bytes → Bytes
select_pass tel = ascii "select pass,id from t_user where tel='" ++ (tel ++ ascii "';")

unfoldable pub select_id : Bytes → Bytes
select_id name = ascii "select id from t_user where name='" ++ (name ++ ascii "';")

-- The signature of a new user, in GB2312.
abbrev default_feeling : Bytes
default_feeling = 213 ∷ 253 ∷ 212 ∷ 218 ∷ 179 ∷ 212 ∷ 183 ∷ 185 ∷ []

unfoldable pub insert_user : Bytes → Bytes → Bytes → Bytes
insert_user name tel password =
    ascii "insert into t_user (name,tel,pass,feeling,iconid) values ('"
    ++ (name
        ++ (ascii "','"
            ++ (tel
                ++ (ascii "','"
                    ++ (password ++ (ascii "','" ++ (default_feeling ++ ascii "',4);")))))))

unfoldable pub insert_friend : ℕ → ℕ → Bytes
insert_friend id_a id_b =
    ascii "insert into t_friend values ("
    ++ (format_d id_a ++ (ascii "," ++ (format_d id_b ++ ascii ");")))
