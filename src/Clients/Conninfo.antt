-- ===== src/Clients/Conninfo.antt =====
-- How the string that `PgsqlDatabase::connect` of src/cPgsqlDatabase.cpp makes is read.
use pquery.Prelude.{
  ◌↔◌, sym, subst, ℕ, zero, suc, ◌+◌, ◌/◌, ◌%◌, ◌<◌, List, [], ◌∷◌, ◌++◌, ◌≡◌, refl, inl, inr,
  arith, ltb, if◌then◌else◌, Bytes, codes, is_empty, is_space, All, All-append, Bool-cases,
  append-nil,
}
use pquery.WorkerConfig.Params.{WorkerParams}
use pquery.WorkerConfig.Checks.{to_string, digits_from}
use pquery.Clients.Settings.{
  in_word, in_keyword, InWord, IsWord, IsKeyword, Settings, last, next, Settings-unique,
}
use pquery.Clients.PgsqlOutput.{number, conninfo}

digit-InWord : (d : ℕ) → d < 10 → InWord (d + b'0')
unfolding in_word is_space
digit-InWord d h = ground arith

ended-IsWord : (word : Bytes) (c : ℕ) → All InWord word → InWord c → IsWord (word ++ c ∷ [])
ended-IsWord [] c h k = (k, tt)
ended-IsWord (d ∷ word) c h k = (h.0, All-append InWord word (c ∷ []) h.1 (k, tt))

word-All : (word : Bytes) → IsWord word → All InWord word
word-All [] h = tt
word-All (c ∷ word) h = h

digits_from-InWord : (fuel n : ℕ) → All InWord (digits_from fuel n)
unfolding digits_from
digits_from-InWord zero n = tt
digits_from-InWord (suc fuel) n = elim (Bool-cases (ltb n 10)) [
  | inl e ↦ rw e (digit-InWord n (ground arith), tt)
  | inr e ↦ rw e (
      All-append InWord _ _ (digits_from-InWord fuel (n / 10))
        (digit-InWord (n % 10) (omega arith), tt))
]

digits_from-IsWord : (fuel n : ℕ) → IsWord (digits_from (suc fuel) n)
unfolding digits_from
digits_from-IsWord fuel n = elim (Bool-cases (ltb n 10)) [
  | inl e ↦ rw e (digit-InWord n (ground arith), tt)
  | inr e ↦
      rw e
        (ended-IsWord _ _ (digits_from-InWord fuel (n / 10)) (digit-InWord (n % 10) (omega arith)))
]

number-IsWord : (n : ℕ) → IsWord (number n)
unfolding number to_string
number-IsWord n = digits_from-IsWord n n

unfoldable pub port_settings : WorkerParams → List (Bytes × Bytes)
port_settings p =
    (codes "port", number p.port)
    ∷ (if ltb 0 p.connect_timeout_secs
        then (codes "connect_timeout", number p.connect_timeout_secs) ∷ []
        else [])

-- With no password, the setting of the database is taken for it.
unfoldable pub read_settings : WorkerParams → List (Bytes × Bytes)
unfolding port_settings number
read_settings p =
    (codes "host", p.address)
    ∷ (codes "user", p.username)
    ∷ (if is_empty p.password
        then (codes "password", codes "dbname=" ++ p.database) ∷ port_settings p
        else (codes "password", p.password) ∷ (codes "dbname", p.database) ∷ port_settings p)

timeout_text : WorkerParams → Bytes
timeout_text p =
    if ltb 0 p.connect_timeout_secs
    then codes " connect_timeout=" ++ number p.connect_timeout_secs
    else []

-- Settings with no more white space than they need.
only_setting :
    (keyword value : Bytes)
    → IsKeyword keyword
    → IsWord value
    → Settings (keyword ++ b'=' ∷ value) ((keyword, value) ∷ [])
only_setting keyword value k w = last keyword [] [] value k tt tt w

first_setting :
    (keyword value rest : Bytes) {settings : List (Bytes × Bytes)}
    → IsKeyword keyword
    → IsWord value
    → Settings rest settings
    → Settings (keyword ++ b'=' ∷ (value ++ b' ' ∷ rest)) ((keyword, value) ∷ settings)
unfolding is_space
first_setting keyword value rest k w d = next keyword [] [] value b' ' [] rest k tt tt w refl tt d

port-Settings :
    (p : WorkerParams)
    → Settings (codes "port=" ++ (number p.port ++ timeout_text p)) (port_settings p)
unfolding timeout_text port_settings in_keyword is_space
port-Settings p = elim (Bool-cases (ltb 0 p.connect_timeout_secs)) [
  | inl e ↦ rw e (
      first_setting (codes "port") (number p.port)
        (codes "connect_timeout=" ++ number p.connect_timeout_secs) (search) (number-IsWord p.port)
        (only_setting (codes "connect_timeout") (number p.connect_timeout_secs) (search)
          (number-IsWord p.connect_timeout_secs)))
  | inr e ↦
      rw (e, append-nil (number p.port))
        (only_setting (codes "port") (number p.port) (search) (number-IsWord p.port))
]

password-Settings :
    (password : Bytes) (p : WorkerParams)
    → All InWord password
    → IsWord p.database
    → Settings
        (codes "password="
          ++ (password
              ++ (codes " dbname="
                  ++ (p.database ++ (codes " port=" ++ (number p.port ++ timeout_text p))))))
        (if is_empty password
          then (codes "password", codes "dbname=" ++ p.database) ∷ port_settings p
          else (codes "password", password) ∷ (codes "dbname", p.database) ∷ port_settings p)
unfolding in_word in_keyword is_space
password-Settings [] p h d =
    next (codes "password") [] (codes " ") (codes "dbname=" ++ p.database) b' ' [] _ (search) tt
      (refl, tt) (All-append InWord (codes "dbname=") p.database (search) (word-All p.database d))
      refl tt (port-Settings p)
password-Settings (c ∷ password) p h d =
    first_setting (codes "password") (c ∷ password) _ (search) h
      (first_setting (codes "dbname") p.database _ (search) d (port-Settings p))

conninfo-read_settings :
    (p : WorkerParams)
    → IsWord p.address
    → IsWord p.username
    → All InWord p.password
    → IsWord p.database
    → Settings (conninfo p) (read_settings p)
unfolding conninfo read_settings timeout_text in_keyword is_space
conninfo-read_settings p a u w d =
    first_setting (codes "host") p.address _ (search) a
      (first_setting (codes "user") p.username _ (search) u (password-Settings p.password p w d))

-- By the grammar of PostgreSQL's manual the connection string of the client has one reading, where
-- the address, the user and the database are not empty and nothing in them or the password needs
-- quotes: with a password, the settings of the worker; with no password, the setting of the
-- database is taken for the password and there is no database.
pub conninfo-Settings :
    (p : WorkerParams) (settings : List (Bytes × Bytes))
    → IsWord p.address
    → IsWord p.username
    → All InWord p.password
    → IsWord p.database
    → Settings (conninfo p) settings ↔ (settings ≡ read_settings p)
conninfo-Settings p settings a u w d =
    let reads = conninfo-read_settings p a u w d in
    (λ s. Settings-unique s reads, λ e. subst (Settings (conninfo p)) (sym e) reads)
