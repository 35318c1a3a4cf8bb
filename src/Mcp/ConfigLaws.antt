-- ===== src/Mcp/ConfigLaws.antt =====
-- The MCP server reads back the toolsets that the spec names.
use Prim.Native.String.{◌++◌}
use mathlib.Core.Option
use text.Mathlib.TextLemmas.{append_assoc, nil-append, cons-append}
use pulse_operator.Prelude.{
  ℕ, String, Char, code, Bool, true, false, not, ◌==◌, ◌&&◌, ◌||◌, ltb, eqb, Option, none, some,
  List, [], ◌∷◌, All, if◌then◌else◌, ◌≡◌, refl, ap, ◌∙◌, arith, eq_iff, Bool-cases, inl, inr,
}
use pulse_operator.Api.{OpenShiftPulse}
use pulse_operator.HelmRunner.{cut_prefix}
use pulse_operator.Mcp.Config.{
  split, trim_space, trimmed, prints, quote_chars, quote, join_quoted, wanted_toolsets, config_head,
  build_mcp_config_toml,
}

-- Where a reader of a TOML array of basic strings stands: where an item or the bracket may come, in an
-- item, behind a backslash, or behind an item, where a comma or the bracket must come.
pub data Place : Type 0 where
  before_item inside escaped after_item : Place

abbrev push : Char → Option (List String) → Option (List String)
push c none = none
push c (some []) = none
push c (some (first ∷ rest)) = some (String.◌∷◌ c first ∷ rest)

-- The bracket closes the array; no more than the end of the line follows.
abbrev close : String → Option (List String)
close s = if s == "\n" then some [] else none

-- An array of basic strings (toml.io), from behind its bracket: the items are separated by one comma,
-- with spaces around it or not; a control character in a string is refused, and of the escapes those
-- of the quote and the backslash are read. The text that is being read is the first of the list.
read : Place → String → Option (List String)
read place String.[] = none
read before_item (String.◌∷◌ c s) =
    let item = read inside s in
    let rest = read before_item s in
    if eqb (code c) b'"'
    then item
    else if eqb (code c) b']'
    then close s
    else if eqb (code c) b' '
    then rest
    else none
read inside (String.◌∷◌ c s) =
    let ended = read after_item s in
    let escape = read escaped s in
    let rest = read inside s in
    if eqb (code c) b'"'
    then Option.map (λ items. "" ∷ items) ended
    else if eqb (code c) b'\\'
    then escape
    else if ltb (code c) 32 || eqb (code c) 127
    then none
    else push c rest
read escaped (String.◌∷◌ c s) =
    let rest = read inside s in
    if eqb (code c) b'"' || eqb (code c) b'\\' then push c rest else none
read after_item (String.◌∷◌ c s) =
    let next = read before_item s in
    let rest = read after_item s in
    if eqb (code c) b','
    then next
    else if eqb (code c) b']'
    then close s
    else if eqb (code c) b' '
    then rest
    else none

-- The toolsets that the server finds in its configuration: behind the lines of the operator's own.
unfoldable pub read_toolsets : String → Option (List String)
unfolding read cut_prefix
read_toolsets text = elim (cut_prefix config_head text) [
  | none ↦ none
  | some array ↦ read before_item array
]

-- Every character prints.
unfoldable pub all_print : (ℕ → Bool) → String → Bool
unfolding prints
all_print is_print String.[] = true
all_print is_print (String.◌∷◌ c s) = prints is_print (code c) && all_print is_print s

push-map :
    (c : Char) (s : String) (r : Option (List String))
    → push c (Option.map (λ items. s ∷ items) r) ≡ Option.map (λ items. String.◌∷◌ c s ∷ items) r
push-map c s none = refl
push-map c s (some items) = refl

read-plain :
    (c : Char) (s : String)
    → eqb (code c) b'"' || eqb (code c) b'\\' ≡ false
    → ltb (code c) 32 || eqb (code c) 127 ≡ false
    → read inside (String.◌∷◌ c s) ≡ push c (read inside s)
unfolding read
read-plain c s usual shown = ground (arith, usual, shown)

read-separator : (s : String) → read after_item (", " ++ s) ≡ read before_item s
unfolding read
read-separator s = ap (read after_item) (
    cons-append "," " " s
    ∙ ap (λ z. String.◌∷◌ "," z) (cons-append " " "" s ∙ ap (λ z. String.◌∷◌ " " z) (nil-append s)))

cut_prefix-append : (s rest : String) → cut_prefix s (s ++ rest) ≡ some rest
unfolding cut_prefix
cut_prefix-append String.[] rest = ap some (nil-append rest)
cut_prefix-append (String.◌∷◌ c s) rest = rw cons-append (ground (arith, cut_prefix-append s rest))

-- The names with commas between them, as the spec gives them.
unfoldable pub commas : String → List String → String
commas t [] = t
commas t (u ∷ ts) = t ++ ("," ++ commas u ts)

unfoldable pub no_comma : String → Bool
no_comma String.[] = true
no_comma (String.◌∷◌ c s) = not (eqb (code c) b',') && no_comma s

split_last : (t : String) → no_comma t ≡ true → split b',' t ≡ t ∷ []
unfolding split no_comma
split_last String.[] h = refl
split_last (String.◌∷◌ c s) h = ground (arith, h, split_last s (ground (arith, h)))

split_next :
    (t rest : String) → no_comma t ≡ true → split b',' (t ++ ("," ++ rest)) ≡ t ∷ split b',' rest
unfolding split no_comma
split_next String.[] rest h =
    ap (split b',') (nil-append ("," ++ rest) ∙ cons-append "," "" rest)
    ∙ ap (λ s. "" ∷ split b',' s) (nil-append rest)
split_next (String.◌∷◌ c s) rest h =
    ap (split b',') (cons-append c s ("," ++ rest))
    ∙ ground (arith, h, split_next s rest (ground (arith, h)))

is_nil : String → Bool
is_nil String.[] = true
is_nil (String.◌∷◌ c s) = false

cons_some : (c : Char) (s : String) → (String.◌∷◌ c s == "") ≡ false
unfolding is_nil
cons_some c s = elim (Bool-cases (String.◌∷◌ c s == "")) [
  | inl same ↦ absurd (ground (arith, ap is_nil ((eq_iff (String.◌∷◌ c s) "").0 same)))
  | inr differs ↦ differs
]

commas_some : (t : String) (ts : List String) → (t == "") ≡ false → (commas t ts == "") ≡ false
unfolding commas
commas_some t [] h = h
commas_some String.[] (u ∷ ts) h = absurd (ground (arith, h))
commas_some (String.◌∷◌ c s) (u ∷ ts) h =
    rw (cons-append c s ("," ++ commas u ts)) (cons_some c (s ++ ("," ++ commas u ts)))

module _ (is_print : ℕ → Bool) where
  -- A quoted text that prints is read back, up to its closing quote.
  read-quote_chars :
      (t rest : String)
      → all_print is_print t ≡ true
      → read inside (quote_chars is_print t ++ String.◌∷◌ "\"" rest)
        ≡ Option.map (λ items. t ∷ items) (read after_item rest)
  unfolding read quote_chars all_print prints
  read-quote_chars String.[] rest h = rw nil-append refl
  read-quote_chars (String.◌∷◌ c s) rest h =
      let tail = read-quote_chars s rest (ground (arith, h)) in
      elim (Bool-cases (eqb (code c) b'"' || eqb (code c) b'\\')) [
        | inl special ↦
            rw (special, quote_chars)
              (rw cons-append (
                rw cons-append
                  (rw special (ap (push c) tail ∙ push-map c s (read after_item rest)))))
        | inr usual ↦
            let shown : prints is_print (code c) ≡ true = ground (arith, h) in
            rw (usual, quote_chars)
              (rw shown (
                rw cons-append (
                  read-plain c (quote_chars is_print s ++ String.◌∷◌ "\"" rest) usual
                    (ground (arith, shown, prints))
                  ∙ (ap (push c) tail ∙ push-map c s (read after_item rest)))))
      ]

  read-quote :
      (t rest : String)
      → all_print is_print t ≡ true
      → read before_item (quote is_print t ++ rest)
        ≡ Option.map (λ items. t ∷ items) (read after_item rest)
  unfolding quote read
  read-quote t rest h =
      let chars = quote_chars is_print t in
      ap (read before_item) (
        cons-append "\"" (chars ++ "\"") rest
        ∙ ap (λ z. String.◌∷◌ "\"" z)
            (append_assoc chars "\"" rest
              ∙ ap (λ z. chars ++ z)
                  (cons-append "\"" "" rest ∙ ap (λ z. String.◌∷◌ "\"" z) (nil-append rest))))
      ∙ read-quote_chars t rest h

  read-join_quoted :
      (ts : List String)
      → All (λ t. all_print is_print t ≡ true) ts
      → read before_item (join_quoted is_print ts ++ "]\n") ≡ some ts
  unfolding join_quoted read
  read-join_quoted [] h = refl
  read-join_quoted (t ∷ []) h = read-quote t "]\n" h.0
  read-join_quoted (t ∷ (u ∷ rest)) h = rw append_assoc (
      rw (read-quote t _ h.0) (
        rw append_assoc (
          ap (Option.map (λ items. t ∷ items)) (
            read-separator (join_quoted is_print (u ∷ rest) ++ "]\n")
            ∙ read-join_quoted (u ∷ rest) h.1))))

  reads_wanted :
      (pulse : OpenShiftPulse)
      → All (λ t. all_print is_print t ≡ true) (wanted_toolsets pulse)
      → read_toolsets (build_mcp_config_toml is_print pulse) ≡ some (wanted_toolsets pulse)
  unfolding read_toolsets build_mcp_config_toml
  reads_wanted pulse h =
      rw
        (
          cut_prefix-append config_head (join_quoted is_print (wanted_toolsets pulse) ++ "]\n"),
          read_toolsets,
        )
        (read-join_quoted (wanted_toolsets pulse) h)

  -- A name that stands for itself in the spec: not empty, without a comma and without spaces around
  -- it, of characters that print.
  abbrev pub Tidy : String → Type 0
  Tidy t =
      ((t == "") ≡ false) × (no_comma t ≡ true) × (trim_space t ≡ t) × (all_print is_print t ≡ true)

  split-commas :
      (t : String) (ts : List String) → All Tidy (t ∷ ts) → split b',' (commas t ts) ≡ t ∷ ts
  unfolding commas
  split-commas t [] h = split_last t h.0.1
  split-commas t (u ∷ ts) h =
      split_next t (commas u ts) h.0.1 ∙ ap (λ rest. t ∷ rest) (split-commas u ts h.1)

  trimmed-Tidy : (ts : List String) → All Tidy ts → trimmed ts ≡ ts
  unfolding trimmed
  trimmed-Tidy [] h = refl
  trimmed-Tidy (t ∷ ts) h =
      let same = h.0.2 in let rest = trimmed-Tidy ts h.1 in ground (arith, same, h.0.0, rest)

  prints-Tidy : (ts : List String) → All Tidy ts → All (λ t. all_print is_print t ≡ true) ts
  prints-Tidy [] h = tt
  prints-Tidy (t ∷ ts) h = (h.0.3, prints-Tidy ts h.1)

  -- If the spec names toolsets, separated by commas, then the MCP server, which reads the
  -- configuration as TOML, finds exactly these, in their order: whatever names without a comma, spaces
  -- around them and characters that do not print; quotes and backslashes included.
  pub toolsets_read_back :
      (pulse : OpenShiftPulse) (t : String) (ts : List String)
      → pulse.spec.agent.mcp.toolsets ≡ commas t ts
      → All Tidy (t ∷ ts)
      → read_toolsets (build_mcp_config_toml is_print pulse) ≡ some (t ∷ ts)
  unfolding wanted_toolsets
  toolsets_read_back pulse t ts named tidy =
      let wanted : wanted_toolsets pulse ≡ t ∷ ts =
        rw (named, commas_some t ts tidy.0.0)
          (ap trimmed (split-commas t ts tidy) ∙ trimmed-Tidy (t ∷ ts) tidy) in
      reads_wanted pulse (rw wanted (prints-Tidy (t ∷ ts) tidy)) ∙ ap some wanted
