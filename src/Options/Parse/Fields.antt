-- ===== src/Options/Parse/Fields.antt =====
-- What the options of a request with given fields are.
use nginx_hls_module.Base.{
  ℕ, ◌+◌, ◌≡◌, ◌∙◌, sym, ap, List, [], ◌∷◌, ◌++◌, append-nil, append_assoc, Option, none, some,
  Bool, true, false, not, ◌==◌, ◌||◌, ◌&&◌, length, length-append, drop, drop-append, All, arith,
}
use nginx_hls_module.Options.Parse.{
  SplitOptions, set_option, end_field, options_loop, mp4_split_options_set,
}

-- A byte that is no sign of its own.
abbrev pub plain : ℕ → Bool
plain c = not (c == b'=') && not ((c == b'&') || (c == 0))

abbrev pub Plain : List ℕ → Type 0
Plain = All (λ c. plain c ≡ true)

pub record Field : Type 0 where
  pub key : List ℕ
  pub value : List ℕ

abbrev pub PlainField : Field → Type 0
PlainField f = Plain f.key × Plain f.value

-- A field, with an equals sign; fields, with an ampersand between two.
abbrev pub print_field : Field → List ℕ
print_field f = f.key ++ (b'=' ∷ f.value)

abbrev pub print_fields : Field → List Field → List ℕ
print_fields f [] = print_field f
print_fields f (g ∷ gs) = print_field f ++ (b'&' ∷ print_fields g gs)

module _ {F : Type 0} (strtod : List ℕ → F) (strtoll : List ℕ → ℕ) where
  abbrev pub set_field : SplitOptions F → Field → SplitOptions F
  set_field o f = set_option strtod strtoll o (print_field f) (length f.key) f.value

  abbrev pub set_fields : SplitOptions F → Field → List Field → SplitOptions F
  set_fields o f [] = set_field o f
  set_fields o f (g ∷ gs) = set_fields (set_field o f) g gs

  abbrev run : SplitOptions F → List ℕ → Option ℕ → List ℕ → SplitOptions F
  run = options_loop strtod strtoll

  -- Plain bytes are taken into the word.
  Plain-bytes :
      (o : SplitOptions F) (word : List ℕ) (key_len : Option ℕ) (cs rest : List ℕ)
      → Plain cs
      → run o word key_len (cs ++ rest) ≡ run o (word ++ cs) key_len rest
  unfolding options_loop
  Plain-bytes o word key_len [] rest h = ap (λ w. run o w key_len rest) (sym (append-nil word))
  Plain-bytes o word key_len (c ∷ cs) rest h =
      let not_equals : (c == b'=') ≡ false = ground (arith, h.0) in
      let not_end : ((c == b'&') || (c == 0)) ≡ false = ground (arith, h.0) in
      rw (not_equals, not_end)
        (Plain-bytes o (word ++ (c ∷ [])) key_len cs rest h.1
          ∙ ap (λ w. run o w key_len rest) (append_assoc word (c ∷ []) cs))

  -- A field up to its end.
  field :
      (o : SplitOptions F) (f : Field) (rest : List ℕ)
      → PlainField f
      → run o [] none (print_field f ++ rest) ≡ run o (print_field f) (some (length f.key)) rest
  unfolding options_loop
  field o f rest h =
      ap (run o [] none) (append_assoc f.key (b'=' ∷ f.value) rest)
      ∙ Plain-bytes o [] none f.key (b'=' ∷ f.value ++ rest) h.0
      ∙ Plain-bytes o (f.key ++ (b'=' ∷ [])) (some (length f.key)) f.value rest h.1
      ∙ ap (λ w. run o w (some (length f.key)) rest) (append_assoc f.key (b'=' ∷ []) f.value)

  -- The value of a field, in its word.
  end_field-set_field :
      (o : SplitOptions F) (f : Field)
      → end_field strtod strtoll o (print_field f) (some (length f.key)) ≡ set_field o f
  end_field-set_field o f = ap (set_option strtod strtoll o (print_field f) (length f.key)) (
      ap (drop (length f.key + 1)) (sym (append_assoc f.key (b'=' ∷ []) f.value))
      ∙ drop-append (length f.key + 1) (f.key ++ (b'=' ∷ [])) f.value
          (length-append f.key (b'=' ∷ [])))

  fields :
      (o : SplitOptions F) (f : Field) (fs : List Field)
      → PlainField f
      → All PlainField fs
      → run o [] none (print_fields f fs) ≡ set_fields o f fs
  unfolding options_loop
  fields o f [] h hs =
      ap (run o [] none) (sym (append-nil (print_field f)))
      ∙ field o f [] h
      ∙ end_field-set_field o f
  fields o f (g ∷ gs) h hs =
      field o f (b'&' ∷ print_fields g gs) h
      ∙ ap (λ o'. run o' [] none (print_fields g gs)) (end_field-set_field o f)
      ∙ fields (set_field o f) g gs hs.0 hs.1

  -- Where a request has fields with plain keys and values, an equals sign in each and an ampersand
  -- between two, and does not start with a question mark, its options are those that its fields
  -- set, one after the other.
  pub mp4_split_options_set-print_fields :
      (o : SplitOptions F) (c : ℕ) (cs value : List ℕ) (fs : List Field)
      → PlainField (record { key = c ∷ cs; value = value })
      → All PlainField fs
      → (c == b'?') ≡ false
      → mp4_split_options_set strtod strtoll o
          (print_fields (record { key = c ∷ cs; value = value }) fs)
        ≡ set_fields o (record { key = c ∷ cs; value = value }) fs
  unfolding mp4_split_options_set
  mp4_split_options_set-print_fields o c cs value [] h hs no_mark =
      rw no_mark (fields o (record { key = c ∷ cs; value = value }) [] h hs)
  mp4_split_options_set-print_fields o c cs value (g ∷ gs) h hs no_mark =
      rw no_mark (fields o (record { key = c ∷ cs; value = value }) (g ∷ gs) h hs)
