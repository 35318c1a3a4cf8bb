-- ===== src/Mcp/Config.antt =====
-- buildMCPConfigTOML, with strings.Split, strings.TrimSpace, strconv.Quote and strings.Join.
use Prim.Native.String.{◌++◌}
use pulse_operator.Prelude.{
  ℕ, ◌/◌, ◌%◌, String, code, Bool, ◌&&◌, ◌||◌, ltb, leb, eqb, List, [], ◌∷◌, ◌==◌, if◌then◌else◌,
}
use pulse_operator.Api.{OpenShiftPulse}
use pulse_operator.Image.Tag.{take, drop}

abbrev pub default_mcp_toolsets : String
default_mcp_toolsets =
    "core,config,helm,observability/metrics,observability/logs,openshift,ossm,netedge,tekton,kubevirt,kcp,cluster-diagnostics"

-- What is in front of the first separator, and the parts behind it.
abbrev on_first : (String → String) → List String → List String
on_first f [] = f "" ∷ []
on_first f (first ∷ rest) = f first ∷ rest

-- `strings.Split(s, c)` for a one-character separator: never empty.
unfoldable pub split : ℕ → String → List String
split c String.[] = "" ∷ []
split c (String.◌∷◌ d s) =
    let parts = split c s in
    if eqb (code d) c then "" ∷ parts else on_first (λ first. String.◌∷◌ d first) parts

-- unicode.IsSpace: White_Space.
unfoldable pub is_space : ℕ → Bool
is_space c =
    (leb 9 c && leb c 13)
    || (eqb c 32
        || (eqb c 133
            || (eqb c 160
                || (eqb c 5760
                    || ((leb 8192 c && leb c 8202)
                        || (eqb c 8232
                            || (eqb c 8233 || (eqb c 8239 || (eqb c 8287 || eqb c 12288)))))))))

unfoldable pub trim_left : String → String
unfolding is_space
trim_left String.[] = ""
trim_left (String.◌∷◌ c s) =
    let rest = trim_left s in if is_space (code c) then rest else String.◌∷◌ c s

unfoldable pub trim_right : String → String
unfolding is_space
trim_right String.[] = ""
trim_right (String.◌∷◌ c s) =
    let rest = trim_right s in if rest == "" && is_space (code c) then "" else String.◌∷◌ c rest

-- strings.TrimSpace
unfoldable pub trim_space : String → String
unfolding trim_left trim_right
trim_space s = trim_right (trim_left s)

-- The loop over the parts; an empty one is left out.
unfoldable pub trimmed : List String → List String
unfolding trim_space
trimmed [] = []
trimmed (t ∷ rest) =
    let others = trimmed rest in if trim_space t == "" then others else trim_space t ∷ others

-- The toolsets that the configuration names.
unfoldable pub wanted_toolsets : OpenShiftPulse → List String
unfolding split trimmed
wanted_toolsets pulse =
    let toolsets = pulse.spec.agent.mcp.toolsets in
    trimmed (split b',' (if toolsets == "" then default_mcp_toolsets else toolsets))

unfoldable pub hex_digit_text : ℕ → String
hex_digit_text d = take 1 (drop d "0123456789abcdef")

-- A number as that many hexadecimal digits.
unfoldable pub hex2 : ℕ → String
unfolding hex_digit_text
hex2 n = hex_digit_text ((n / 16) % 16) ++ hex_digit_text (n % 16)

unfoldable pub hex4 : ℕ → String
unfolding hex2
hex4 n = hex2 (n / 256) ++ hex2 n

-- How strconv.Quote writes a character that does not print.
unfoldable pub escape : ℕ → String
unfolding hex2 hex4
escape c =
    if eqb c 7
    then "\\a"
    else if eqb c 8
    then "\\b"
    else if eqb c 12
    then "\\f"
    else if eqb c 10
    then "\\n"
    else if eqb c 13
    then "\\r"
    else if eqb c 9
    then "\\t"
    else if eqb c 11
    then "\\v"
    else if ltb c 32 || eqb c 127
    then "\\x" ++ hex2 c
    else if ltb c 65536
    then "\\u" ++ hex4 c
    else "\\U" ++ (hex4 (c / 65536) ++ hex4 c)

-- What stands in front of the first toolset.
abbrev pub config_head : String
config_head = "# Managed by pulse-operator. Edits are reverted.\nport = \"8081\"\ntoolsets = ["

-- strconv.IsPrint is a table: its answers beyond ASCII are an argument.
module _ (is_print : ℕ → Bool) where
  unfoldable pub prints : ℕ → Bool
  prints c = if ltb c 128 then leb 32 c && leb c 126 else is_print c

  unfoldable pub quote_chars : String → String
  unfolding prints escape
  quote_chars String.[] = ""
  quote_chars (String.◌∷◌ c s) =
      let rest = quote_chars s in
      if eqb (code c) b'"' || eqb (code c) b'\\'
      then String.◌∷◌ "\\" (String.◌∷◌ c rest)
      else if prints (code c)
      then String.◌∷◌ c rest
      else escape (code c) ++ rest

  -- strconv.Quote
  unfoldable pub quote : String → String
  unfolding quote_chars
  quote s = String.◌∷◌ "\"" (quote_chars s ++ "\"")

  -- The quoted items, joined by ", ".
  unfoldable pub join_quoted : List String → String
  unfolding quote
  join_quoted [] = ""
  join_quoted (t ∷ []) = quote t
  join_quoted (t ∷ (u ∷ rest)) = quote t ++ (", " ++ join_quoted (u ∷ rest))

  unfoldable pub build_mcp_config_toml : OpenShiftPulse → String
  unfolding join_quoted wanted_toolsets
  build_mcp_config_toml pulse = config_head ++ (join_quoted (wanted_toolsets pulse) ++ "]\n")
