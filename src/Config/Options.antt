-- ===== src/Config/Options.antt =====
-- Which configurations the command line gives.
use redix.Prelude.{
  ℕ, zero, suc, ◌<◌, ◌≡◌, refl, ◌⊎◌, inl, inr, ◌++◌, Bool, true, false, Option, none, some, List,
  [], ◌∷◌, if◌then◌else◌, arith, same_text, same_text_iff, Bytes, codes,
}
use mathlib.Core.Path.{subst}
use redix.Prelude.Int.{ℤ, pos, negsuc}
use redix.Decimal.{from_chars, whole, to_string_unsigned}
use redix.Decimal.RoundTrip.{from_chars-to_string}
use redix.Config.{
  Config, default_config, Parsed, parsed, fits_int, port_range, with_port, parse_port, is_loglevel,
  flag, option, parse_args, parse_config,
}

abbrev pub IsLogLevel : Bytes → Type 0
IsLogLevel level =
    (level ≡ codes "debug")
    ⊎ (level ≡ codes "info")
    ⊎ (level ≡ codes "warn")
    ⊎ (level ≡ codes "error")

-- The port is one of TCP, and the level is one of the four.
abbrev pub IsConfig : Config → Type 0
IsConfig cfg = (0 < cfg.port) × (cfg.port < 65536) × IsLogLevel cfg.loglevel

is_loglevel_lem : (level : Bytes) → is_loglevel level ≡ true → IsLogLevel level
unfolding is_loglevel
is_loglevel_lem level h = ground (
  arith,
  same_text_iff level (codes "debug"),
  same_text_iff level (codes "info"),
  same_text_iff level (codes "warn"),
  same_text_iff level (codes "error"),
)

port_range-bounds : (v : Option ℤ) (n : ℕ) → port_range v ≡ some n → (0 < n) × (n < 65536)
port_range-bounds none n h = cc
port_range-bounds (some (negsuc m)) n h = cc
port_range-bounds (some (pos zero)) n h = cc
port_range-bounds (some (pos (suc m))) n h = ground arith

parse_port-bounds : (text : Bytes) (n : ℕ) → parse_port text ≡ some n → (0 < n) × (n < 65536)
unfolding parse_port
parse_port-bounds text n h = port_range-bounds (whole (from_chars fits_int text)) n h

parse_port-to_string : (n : ℕ) → 0 < n → n < 65536 → parse_port (to_string_unsigned n) ≡ some n
unfolding parse_port
parse_port-to_string zero p h = absurd (omega arith)
parse_port-to_string (suc n) p h =
    rw (from_chars-to_string fits_int (suc n) (ground arith)) (ground arith)

default_config-IsConfig : IsConfig default_config
default_config-IsConfig = (omega arith, omega arith, inr (inl refl))

is_loglevel_complete : (level : Bytes) → IsLogLevel level → is_loglevel level ≡ true
unfolding is_loglevel
is_loglevel_complete level (inl e) = rw e refl
is_loglevel_complete level (inr (inl e)) = rw e refl
is_loglevel_complete level (inr (inr (inl e))) = rw e refl
is_loglevel_complete level (inr (inr (inr e))) = rw e refl

-- What holds of every configuration that the options start from and lead to.
module _ (r : Config) where
  flag-IsConfig :
      (arg : Bytes) (c : Config) (next : Config → Parsed) (other : Parsed)
      → IsConfig c
      → ((c' : Config) → IsConfig c' → next c' ≡ parsed r → IsConfig r)
      → (other ≡ parsed r → IsConfig r)
      → flag arg c next other ≡ parsed r
      → IsConfig r
  unfolding flag
  flag-IsConfig arg c next other w keeps k h =
      ground (
        arith,
        keeps (record c { aof_enabled = true }) w,
        keeps (record c { rdb_enabled = false }) w,
      )

  parsed-IsConfig : (c : Config) → IsConfig c → parsed c ≡ parsed r → IsConfig r
  parsed-IsConfig c w h = let same : c ≡ r = cc in subst IsConfig same w

  with_port-IsConfig :
      (v : Option ℕ) (c : Config) (next : Config → Parsed)
      → ((n : ℕ) → v ≡ some n → (0 < n) × (n < 65536))
      → IsConfig c
      → ((c' : Config) → IsConfig c' → next c' ≡ parsed r → IsConfig r)
      → with_port v c next ≡ parsed r
      → IsConfig r
  with_port-IsConfig none c next b w keeps h = absurd (cc)
  with_port-IsConfig (some n) c next b w keeps h =
      keeps (record c { port = n }) ((b n refl).0, (b n refl).1, w.2) h

  option-IsConfig :
      (arg text : Bytes) (c : Config) (next : Config → Parsed)
      → IsConfig c
      → ((c' : Config) → IsConfig c' → next c' ≡ parsed r → IsConfig r)
      → option arg text c next ≡ parsed r
      → IsConfig r
  unfolding option
  option-IsConfig arg text c next w keeps h = ground (
    arith,
    with_port-IsConfig (parse_port text) c next (parse_port-bounds text) w keeps,
    keeps (record c { bind_addr = text }) w,
    keeps (record c { db_file_prefix = text }) w,
    λ (l : is_loglevel text ≡ true).
        keeps (record c { loglevel = text }) (w.0, w.1, is_loglevel_lem text l),
  )

  parse_args-IsConfig :
      (args : List Bytes) (c : Config) → IsConfig c → parse_args args c ≡ parsed r → IsConfig r
  unfolding parse_args
  parse_args-IsConfig [] c w h = parsed-IsConfig c w h
  parse_args-IsConfig (arg ∷ []) c w h =
      flag-IsConfig arg c (λ c'. parsed c') _ w parsed-IsConfig (λ e. absurd (ground arith)) h
  parse_args-IsConfig (arg ∷ text ∷ rest) c w h =
      flag-IsConfig arg c (parse_args (text ∷ rest)) (option arg text c (parse_args rest)) w
        (parse_args-IsConfig (text ∷ rest))
        (option-IsConfig arg text c (parse_args rest) w (parse_args-IsConfig rest)) h

-- Whatever the arguments are, a configuration that `parse_config` returns has a port of 1 to 65535
-- and one of the four log levels.
pub parse_config-IsConfig :
    (argv : List Bytes) (r : Config) → parse_config argv ≡ parsed r → IsConfig r
unfolding parse_config
parse_config-IsConfig [] r h = parsed-IsConfig r default_config default_config-IsConfig h
parse_config-IsConfig (name ∷ args) r h =
    parse_args-IsConfig r args default_config default_config-IsConfig h

-- The options that ask for a configuration.
abbrev pub options : Config → List Bytes
options cfg =
    codes "-p"
    ∷ to_string_unsigned cfg.port
    ∷ codes "-b"
    ∷ cfg.bind_addr
    ∷ codes "-d"
    ∷ cfg.db_file_prefix
    ∷ codes "--loglevel"
    ∷ cfg.loglevel
    ∷ ((if cfg.aof_enabled then codes "--aof" ∷ [] else [])
        ++ (if cfg.rdb_enabled then [] else codes "--no-rdb" ∷ []))

abbrev flags : Bool → Bool → List Bytes
flags aof rdb =
    (if aof then codes "--aof" ∷ [] else []) ++ (if rdb then [] else codes "--no-rdb" ∷ [])

parse_args-flags :
    (aof rdb : Bool) (c : Config)
    → c.aof_enabled ≡ false
    → c.rdb_enabled ≡ true
    → parse_args (flags aof rdb) c ≡ parsed (record c { aof_enabled = aof; rdb_enabled = rdb })
unfolding parse_args flag option same_text
parse_args-flags true true c a b = rw b
parse_args-flags true false c a b = refl
parse_args-flags false true c a b = rw (a, b)
parse_args-flags false false c a b = rw a

-- Every configuration with a port of 1 to 65535 and one of the four log levels is returned for the
-- options that ask for it.
pub parse_config-options :
    (name : Bytes) (cfg : Config) → IsConfig cfg → parse_config (name ∷ options cfg) ≡ parsed cfg
unfolding parse_config parse_args flag option same_text
parse_config-options name cfg (p, h, level) =
    rw (parse_port-to_string cfg.port p h, is_loglevel_complete cfg.loglevel level)
      (parse_args-flags cfg.aof_enabled cfg.rdb_enabled _ refl refl)
