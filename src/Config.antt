-- ===== src/Config.antt =====
-- src/config.cpp: the options of the command line.
pub mod Options
use redix.Prelude.{
  ℕ, zero, suc, ◌++◌, Bool, true, false, ◌||◌, Option, none, some, List, [], ◌∷◌, ltb,
  if◌then◌else◌, same_text, Bytes, codes,
}
use redix.Prelude.Int.{ℤ, pos, negsuc}
use redix.Decimal.{from_chars, whole}

pub record Config : Type 0 where
  pub bind_addr : Bytes
  pub port : ℕ
  pub db_file_prefix : Bytes
  pub aof_enabled : Bool
  pub rdb_enabled : Bool
  pub loglevel : Bytes

abbrev pub default_config : Config
default_config = record {
  bind_addr = codes "127.0.0.1";
  port = 6379;
  db_file_prefix = codes "./redix";
  aof_enabled = false;
  rdb_enabled = true;
  loglevel = codes "info";
}

-- `std::expected<Config, std::string>`
pub data Parsed : Type 0 where
  parsed : Config → Parsed
  unexpected : Bytes → Parsed

-- The values of an `int`.
abbrev pub fits_int : ℤ → Bool
fits_int (pos n) = ltb n 2147483648
fits_int (negsuc n) = ltb n 2147483648

-- The port that is stored, `none` where `parse_port` returns false.
abbrev pub port_range : Option ℤ → Option ℕ
port_range none = none
port_range (some (negsuc n)) = none
port_range (some (pos zero)) = none
port_range (some (pos (suc n))) = if ltb 65535 (suc n) then none else some (suc n)

unfoldable pub parse_port : Bytes → Option ℕ
unfolding from_chars
parse_port text = port_range (whole (from_chars fits_int text))

unfoldable pub is_loglevel : Bytes → Bool
unfolding same_text
is_loglevel level =
    same_text level (codes "debug")
    || same_text level (codes "info")
    || same_text level (codes "warn")
    || same_text level (codes "error")

unfoldable pub takes_value : Bytes → Bool
unfolding same_text
takes_value arg =
    same_text arg (codes "-p")
    || same_text arg (codes "-b")
    || same_text arg (codes "-d")
    || same_text arg (codes "--loglevel")

-- The options without a value. `next` is the rest of the loop.
unfoldable pub flag : Bytes → Config → (Config → Parsed) → Parsed → Parsed
unfolding same_text
flag arg cfg next other =
    if same_text arg (codes "-h")
    then unexpected (codes "help")
    else if same_text arg (codes "--aof")
    then next (record cfg { aof_enabled = true })
    else if same_text arg (codes "--no-rdb")
    then next (record cfg { rdb_enabled = false })
    else other

abbrev pub with_port : Option ℕ → Config → (Config → Parsed) → Parsed
with_port none cfg next = unexpected (codes "invalid port")
with_port (some n) cfg next = next (record cfg { port = n })

-- The options with a value.
unfoldable pub option : Bytes → Bytes → Config → (Config → Parsed) → Parsed
unfolding same_text parse_port is_loglevel
option arg text cfg next =
    if same_text arg (codes "-p")
    then with_port (parse_port text) cfg next
    else if same_text arg (codes "-b")
    then next (record cfg { bind_addr = text })
    else if same_text arg (codes "-d")
    then next (record cfg { db_file_prefix = text })
    else if same_text arg (codes "--loglevel")
    then if is_loglevel text
      then next (record cfg { loglevel = text })
      else unexpected (codes "invalid loglevel")
    else unexpected (codes "unknown option: " ++ arg)

-- The loop, from the arguments that are left.
unfoldable pub parse_args : List Bytes → Config → Parsed
unfolding flag option takes_value
parse_args [] cfg = parsed cfg
parse_args (arg ∷ []) cfg =
    flag arg cfg (λ c. parsed c)
      (if takes_value arg
        then unexpected (codes "missing value for " ++ arg)
        else unexpected (codes "unknown option: " ++ arg))
parse_args (arg ∷ text ∷ rest) cfg =
    flag arg cfg (parse_args (text ∷ rest)) (option arg text cfg (parse_args rest))

-- `argv` with the program's name in front.
unfoldable pub parse_config : List Bytes → Parsed
unfolding parse_args
parse_config [] = parsed default_config
parse_config (name ∷ args) = parse_args args default_config
