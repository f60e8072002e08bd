-- ===== src/Config/Dsn.antt =====
-- DBConfig.DSN of internal/config/config.go, with what it uses of net and net/url. The fields are
-- texts of ASCII, so that a code is a byte.
pub mod Credentials
use Prim.Native.Nat.{◌/◌, ◌%◌}
use transfer_demo.Prelude.{
  ℕ, ◌+◌, Bool, true, false, ◌&&◌, ◌||◌, List, [], ◌∷◌, ◌++◌, String, ltb, leb, ◌==◌, if◌then◌else◌,
}
use transfer_demo.Strconv.{format_int}
use transfer_demo.Platform.Tracer.{Text, text, same_text}
use transfer_demo.Config.{DbConfig, is_empty}

abbrev pub is_unreserved : ℕ → Bool
is_unreserved c =
    leb 48 c && leb c 57
    || leb 65 c && leb c 90
    || leb 97 c && leb c 122
    || c == 45
    || c == 46
    || c == 95
    || c == 126

abbrev pub one_of : List ℕ → ℕ → Bool
one_of [] c = false
one_of (d ∷ ds) c = d == c || one_of ds c

-- What is left as it is in a user name or password, a path, a host, and a query.
abbrev pub plain_user : ℕ → Bool
plain_user c = is_unreserved c || one_of (text "$&+,;=") c

abbrev pub plain_path : ℕ → Bool
plain_path c = is_unreserved c || one_of (text "$&+,;=/:@") c

abbrev pub plain_host : ℕ → Bool
plain_host c = is_unreserved c || one_of (text "!$&'()*+,;=:[]<>\"") c

abbrev pub hex_digit : ℕ → ℕ
hex_digit d = if ltb d 10 then 48 + d else 55 + d

unfoldable pub escape : (ℕ → Bool) → Text → Text
escape plain [] = []
escape plain (c ∷ s) =
    let rest = escape plain s in
    if plain c then c ∷ rest else 37 ∷ hex_digit (c / 16) ∷ hex_digit (c % 16) ∷ rest

-- url.QueryEscape: a space is a plus.
abbrev pub query_escape : Text → Text
unfolding escape
query_escape [] = []
query_escape (c ∷ s) =
    let rest = query_escape s in
    if c == 32 then 43 ∷ rest else escape is_unreserved (c ∷ []) ++ rest

-- net.JoinHostPort
abbrev pub join_host_port : Text → Text → Text
join_host_port host port =
    if one_of host 58 then 91 ∷ (host ++ (93 ∷ 58 ∷ port)) else host ++ (58 ∷ port)

-- url.UserPassword, or url.User where there is no password.
unfoldable pub user_info : DbConfig → Text
user_info d =
    if is_empty d.password
    then escape plain_user (text d.user)
    else escape plain_user (text d.user) ++ (58 ∷ escape plain_user (text d.password))

-- The path * is not escaped.
abbrev pub escaped_path : Text → Text
escaped_path path = if same_text path (text "*") then path else escape plain_path path

-- A path after a host begins with a slash.
abbrev pub rooted : Text → Text
rooted [] = []
rooted (c ∷ s) = if c == 47 then c ∷ s else 47 ∷ c ∷ s

unfoldable pub dsn : DbConfig → Text
unfolding user_info
dsn d =
    text "postgres://"
    ++ (user_info d
        ++ (64
            ∷ (escape plain_host (join_host_port (text d.host) (text (format_int d.port)))
                ++ (rooted (escaped_path (text d.dbname))
                    ++ (63 ∷ (text "sslmode=" ++ query_escape (text d.sslmode)))))))
