-- ===== src/Server/Connection.antt =====
-- The connection with the database: the constructor of CMySql, ConnectMySql and DisConnect of
-- IMServer/MySQL/CMySql.cpp, and the constructor and the deleter of IMServer/MySQL/SqlManager.cpp.
-- The client library is a parameter.
use instance_message.Base.{ℕ, Bool, Bytes, ascii}

-- mysql_init, mysql_set_character_set, mysql_real_connect, whose result is true if it is not the
-- null pointer, and mysql_close, on a MYSQL.
pub record MySqlClient : Type 1 where
  pub MySql : Type 0
  pub mysql_init : MySql
  pub mysql_set_character_set : Bytes → MySql → MySql
  pub mysql_real_connect : (host user pass db : Bytes) (port : ℕ) → MySql → MySql × Bool
  pub mysql_close : MySql → MySql

abbrev pub db_addr : Bytes
db_addr = ascii "localhost"

abbrev pub db_user : Bytes
db_user = ascii "root"

abbrev pub db_pass : Bytes
db_pass = ascii "690403"

abbrev pub db_name : Bytes
db_name = ascii "im_sql"

-- The default of `nport` in CMySql.h.
abbrev pub default_port : ℕ
default_port = 3306

module _ (l : MySqlClient) where
  unfoldable pub new_c_my_sql : l.MySql
  new_c_my_sql = l.mysql_set_character_set (ascii "gb2312") l.mysql_init

  -- True when connected.
  unfoldable pub connect_my_sql : (host user pass db : Bytes) (nport : ℕ) → l.MySql → l.MySql × Bool
  connect_my_sql host user pass db nport sock = l.mysql_real_connect host user pass db nport sock

  unfoldable pub dis_connect : l.MySql → l.MySql
  dis_connect sock = l.mysql_close sock

  -- The constructor of SQLManager, which drops the result of ConnectMySql.
  unfoldable pub new_sql_manager : l.MySql
  unfolding new_c_my_sql connect_my_sql
  new_sql_manager = (connect_my_sql db_addr db_user db_pass db_name default_port new_c_my_sql).0

  -- The deleter of the one instance; what is left is freed.
  unfoldable pub delete_sql_manager : l.MySql → l.MySql
  unfolding dis_connect
  delete_sql_manager sock = dis_connect sock
