-- ===== src/Server/World.antt =====
-- What a handler of the server reads and changes, as one record, and the monad of the handlers: the
-- members of `Ckernel` (IMServer/CKernel.h), the clients of `IOCPTcpServer`, the database behind
-- the MySQL client library, and the socket calls made so far.
-- The client library is a parameter: `Db` is the connection with the database behind it.
use instance_message.Base.{
  ℕ, ◌++◌, Bool, Option, none, some, List, [], ◌∷◌, Bytes, Map, lookup, int_bytes, length, take,
  leb, if◌then◌else◌,
}
use instance_message.Text.{c_str_at, sprintf_s}

-- A row of a result: each column a C string or a null pointer.
abbrev pub Row : Type 0
Row = List (Option Bytes)

pub record MySqlDriver : Type 1 where
  pub Db : Type 0
  -- `mysql_query`: true is its non-zero result, a failure.
  pub mysql_query : Db → Bytes → Db × Bool
  -- `mysql_store_result`: `none` is its null pointer, and the rows are what `mysql_fetch_row` hands
  -- out one by one.
  pub mysql_store_result : Db → Db × Option (List Row)

-- The handlers whose addresses `initFunArrry` stores.
pub data Handler : Type 0 where
  register_rq login_rq offline_rq chat_rq add_friend_rq add_friend_rs : Handler

pub data Effect : Type 0 where
  wsa_send : (sock : ℕ) → Bytes → Effect
  close_socket : (sock : ℕ) → Effect

pub record World (d : MySqlDriver) : Type 0 where
  pub db : d.Db
  -- m_mapIdToSocket
  pub online : Map ℕ
  -- m_arrFun
  pub arr_fun : List (Option Handler)
  -- m_clients of IOCPTcpServer
  pub clients : Map ℕ
  pub trace : List Effect

-- Why the process ends: `exit(0)`, an exception that no caller catches, the handler of an invalid
-- parameter, or an access outside a buffer, after which nothing is promised.
pub data Stop : Type 0 where
  exit_called uncaught_exception invalid_parameter out_of_bounds : Stop

pub data Outcome (d : MySqlDriver) (A : Type 0) : Type 0 where
  done : A → World d → Outcome d A
  stopped : Stop → World d → Outcome d A

abbrev pub M : MySqlDriver → Type 0 → Type 0
M d A = World d → Outcome d A

module _ {d : MySqlDriver} {A : Type 0} where
  abbrev pub pure : A → M d A
  pure a w = done a w

  abbrev pub stop : Stop → M d A
  stop r w = stopped r w

  abbrev pub or_stop : Stop → Option A → M d A
  or_stop r none w = stopped r w
  or_stop r (some a) w = done a w

infixl 5 ◌>>=◌ ◌>>◌
abbrev pub ◌>>=◌ : {d : MySqlDriver} {A B : Type 0} → M d A → (A → M d B) → M d B
◌>>=◌ m f w = elim (m w) [ done a v ↦ f a v | stopped r v ↦ stopped r v ]

abbrev pub ◌>>◌ : {d : MySqlDriver} {B : Type 0} → M d (Unit {0}) → M d B → M d B
m >> k = m >>= λ _. k

module _ {d : MySqlDriver} where
  abbrev pub c_str_from : ℕ → Bytes → M d Bytes
  c_str_from at data_buf = or_stop out_of_bounds (c_str_at at data_buf)

  abbrev pub print_to : ℕ → Bytes → M d Bytes
  print_to capacity text = or_stop invalid_parameter (sprintf_s capacity text)

  abbrev pub with_effect : World d → Effect → World d
  with_effect w e = record w { trace = w.trace ++ e ∷ [] }

  -- `m_mapIdToSocket.count(id) > 0`, with the socket if so.
  abbrev pub socket_of : ℕ → M d (Option ℕ)
  socket_of id w = done (lookup id w.online) w

  -- IOCPTcpServer::sendData: the length and the body in one `WSASend`, if the client is connected.
  -- The effect is the call. When it fails, `sendData` frees the copy that it made and returns as it
  -- does otherwise: the client stays connected and nobody is told, so that the world is the same.
  unfoldable pub send_data : Bytes → ℕ → ℕ → M d (Unit {0})
  send_data data_buf len client_id w = elim (lookup client_id w.clients) [
    | none ↦ done tt w
    | some s ↦
        if leb len (length data_buf)
        then done tt (with_effect w (wsa_send s (int_bytes len ++ take len data_buf)))
        else stopped out_of_bounds w
  ]
