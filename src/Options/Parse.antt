-- ===== src/Options/Parse.antt =====
-- src/moov.h, `mp4_split_options_init` and `mp4_split_options_set`: the options of a request. The
-- numbers of the C library are parameters: `strtod`, cut to a float of a type `F`, and `strtoll`, as
-- its 64 bits. The allocations succeed.
pub mod Fields
use nginx_hls_module.Base.{
  ℕ, zero, suc, ◌+◌, ◌%◌, ◌^◌, List, [], ◌∷◌, ◌++◌, Option, none, some, Bool, true, false, not, ltb,
  ◌==◌, ◌||◌, if◌then◌else◌, take, drop, length,
}

pub data InputFormat : Type 0 where
  input_format_mp4 : InputFormat
  input_format_flv : InputFormat

-- `length` is that of the configuration, which a request may set.
pub record SplitOptions (F : Type 0) : Type 0 where
  pub start : F
  pub start_integer : ℕ
  pub end : F
  pub fragments : ℕ
  pub input_format : InputFormat
  pub fragment_bitrate : ℕ
  pub fragment_track_id : ℕ
  pub fragment_start : ℕ
  pub hash : Option (List ℕ)
  pub length : ℕ

abbrev pub mp4_split_options_init : {F : Type 0} → F → ℕ → SplitOptions F
mp4_split_options_init zero_float conf_length = record {
  start = zero_float;
  start_integer = 0;
  end = zero_float;
  fragments = 0;
  input_format = input_format_mp4;
  fragment_bitrate = 0;
  fragment_track_id = 0;
  fragment_start = 0;
  hash = none;
  length = conf_length;
}

-- `!strncmp(literal, text, n)`, with the byte that ends the literal; the text has `n` bytes.
unfoldable pub strncmp_eq : List ℕ → List ℕ → ℕ → Bool
strncmp_eq literal text zero = true
strncmp_eq literal [] (suc n) = false
strncmp_eq [] (c ∷ cs) (suc n) = c == 0
strncmp_eq (l ∷ ls) (c ∷ cs) (suc n) =
    let rest = strncmp_eq ls cs n in if l == c then rest else false

-- A value as a string: up to the first byte 0.
unfoldable pub c_string : List ℕ → List ℕ
c_string [] = []
c_string (c ∷ cs) = let rest = c_string cs in if c == 0 then [] else c ∷ rest

module _ {F : Type 0} (strtod : List ℕ → F) (strtoll : List ℕ → ℕ) where
  -- One field: the key is the first bytes of what stands in front of the value.
  unfoldable pub set_option : SplitOptions F → List ℕ → ℕ → List ℕ → SplitOptions F
  set_option o key key_len val =
      let named : List ℕ → Bool = λ literal. strncmp_eq literal key key_len in
      let number = strtoll (c_string val) in
      if named (b's' ∷ b't' ∷ b'a' ∷ b'r' ∷ b't' ∷ [])
      then record o { start = strtod (c_string val); start_integer = number }
      else if named (b'e' ∷ b'n' ∷ b'd' ∷ [])
      then record o { end = strtod (c_string val) }
      else if named (b'b' ∷ b'i' ∷ b't' ∷ b'r' ∷ b'a' ∷ b't' ∷ b'e' ∷ [])
      then record o { fragment_bitrate = number % 2 ^ 32 }
      else if named (b'v' ∷ b'i' ∷ b'd' ∷ b'e' ∷ b'o' ∷ [])
      then record o { fragments = 1; fragment_start = number }
      else if named (b'a' ∷ b'u' ∷ b'd' ∷ b'i' ∷ b'o' ∷ [])
      then record o { fragment_track_id = number % 2 ^ 32 }
      else if named (b'l' ∷ b'e' ∷ b'n' ∷ b'g' ∷ b't' ∷ b'h' ∷ [])
      then record o { length = number }
      else if named (b'h' ∷ b'a' ∷ b's' ∷ b'h' ∷ [])
      then record o { hash = some (c_string (take 16 val)) }
      else if named (b'i' ∷ b'n' ∷ b'p' ∷ b'u' ∷ b't' ∷ [])
      then (if strncmp_eq (b'f' ∷ b'l' ∷ b'v' ∷ []) val (length val)
          then record o { input_format = input_format_flv }
          else o)
      else o

  -- The end of a field: `word` is what stands from `key` on, and `key_len` is there where an equals
  -- sign was.
  abbrev pub end_field : SplitOptions F → List ℕ → Option ℕ → SplitOptions F
  end_field o word none = o
  end_field o word (some key_len) = set_option o word key_len (drop (key_len + 1) word)

  -- The loop; the byte behind the last one counts as 0.
  unfoldable pub options_loop : SplitOptions F → List ℕ → Option ℕ → List ℕ → SplitOptions F
  options_loop o word key_len [] = end_field o word key_len
  options_loop o word key_len (c ∷ cs) =
      if c == b'='
      then options_loop o (word ++ (c ∷ [])) (some (length word)) cs
      else if (c == b'&') || (c == 0)
      then options_loop (end_field o word key_len) [] none cs
      else options_loop o (word ++ (c ∷ [])) key_len cs

  -- A question mark in front is left out. The result is always 1.
  unfoldable pub mp4_split_options_set : SplitOptions F → List ℕ → SplitOptions F
  mp4_split_options_set o [] = options_loop o [] none []
  mp4_split_options_set o (c ∷ cs) = options_loop o [] none (if c == b'?' then cs else c ∷ cs)
