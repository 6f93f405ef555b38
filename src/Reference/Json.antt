-- ===== src/Reference/Json.antt =====
-- JSON values as `decodeJSONAny` reads them, the accessors on them, and `marshalRFC8785`:
-- api/executor_locator.go. A number is its text. `ecmaNumber` with `strconv.ParseFloat` is a parameter.
use test_miti_check.Prelude.{
  ℕ, ◌+◌, ◌-◌, ◌/◌, ◌%◌, Bool, true, false, Option, none, some, List, [], ◌∷◌, ◌++◌, ◌&&◌, eqb, ltb,
  if◌then◌else◌,
}
use test_miti_check.Prelude.Options.{◌>>=◌}
use test_miti_check.Prelude.Text.{Text, text, text_eq, is_empty, trim_space, drop_prefix}
use test_miti_check.Waf.Target.{text_leb}

mutual
  pub data Json : Type 0 where
    null : Json
    boolean : Bool → Json
    number : Text → Json
    string : Text → Json
    array : Items → Json
    object : Members → Json

  pub data Items : Type 0 where
    no_items : Items
    item : Json → Items → Items

  pub data Members : Type 0 where
    no_members : Members
    member : Text → Json → Members → Members

-- `document[field]`.
unfoldable pub field : Text → Members → Option Json
unfolding text_eq
field name no_members = none
field name (member k v ms) = let rest = field name ms in if text_eq k name then some v else rest

unfoldable pub count_members : Members → ℕ
count_members no_members = 0
count_members (member k v ms) = count_members ms + 1

-- The members of a value that is an object, and none for another.
abbrev pub members_of : Option Json → Members
members_of (some (object ms)) = ms
members_of _ = no_members

-- `stringValue` of a member.
abbrev text_of : Option Json → Text
text_of (some (string s)) = s
text_of _ = []

unfoldable pub string_at : Text → Members → Text
unfolding field
string_at name ms = text_of (field name ms)

unfoldable pub has_all : List Text → Members → Bool
unfolding field
has_all [] ms = true
has_all (f ∷ fields) ms =
    let rest = has_all fields ms in elim (field f ms) [ none ↦ false | some v ↦ rest ]

unfoldable pub count_fields : List Text → ℕ
count_fields [] = 0
count_fields (f ∷ fields) = count_fields fields + 1

-- `hasExactFields`.
unfoldable pub has_exact_fields : List Text → Members → Bool
unfolding has_all count_members count_fields
has_exact_fields fields ms = eqb (count_members ms) (count_fields fields) && has_all fields ms

-- `stringArrayValue`.
unfoldable pub strings : Items → Option (List Text)
unfolding trim_space
strings no_items = some []
strings (item (string s) items) = do
  rest ← if is_empty (trim_space s) then none else some s
  more ← strings items
  some (s ∷ more)
strings (item v items) = none

unfoldable pub string_array : Option Json → Option (List Text)
unfolding strings
string_array (some (array items)) = strings items
string_array _ = none

-- Go's encoding of a string without escapes for HTML, inside its quotes.
abbrev pub hex_digit : ℕ → ℕ
hex_digit n = if ltb n 10 then 48 + n else 87 + n

unfoldable pub encode_char : ℕ → Text
unfolding text
encode_char c =
    if eqb c 34
    then 92 ∷ 34 ∷ []
    else if eqb c 92
    then 92 ∷ 92 ∷ []
    else if eqb c 8
    then text "\\b"
    else if eqb c 9
    then text "\\t"
    else if eqb c 10
    then text "\\n"
    else if eqb c 12
    then text "\\f"
    else if eqb c 13
    then text "\\r"
    else if ltb c 32
    then text "\\u00" ++ (hex_digit (c / 16) ∷ hex_digit (c % 16) ∷ [])
    else if eqb c 0x2028
    then text "\\u2028"
    else if eqb c 0x2029
    then text "\\u2029"
    else c ∷ []

unfoldable pub encode_chars : Text → Text
unfolding encode_char
encode_chars [] = []
encode_chars (c ∷ s) = encode_char c ++ encode_chars s

-- `bytes.ReplaceAll` with a count of the characters that the last match takes.
unfoldable pub replace_from : Text → ℕ → Text → ℕ → Text → Text
unfolding drop_prefix
replace_from old size new n [] = []
replace_from old size new (ℕ.suc n) (c ∷ s) = replace_from old size new n s
replace_from old size new ℕ.zero (c ∷ s) = elim (drop_prefix old (c ∷ s)) [
  | some rest ↦ new ++ replace_from old size new size s
  | none ↦ c ∷ replace_from old size new ℕ.zero s
]

-- `canonicalJSONString`.
unfoldable pub canonical_json_string : Text → Text
unfolding encode_chars replace_from text
canonical_json_string s =
    let encoded = 34 ∷ (encode_chars s ++ (34 ∷ [])) in
    replace_from (text "\\u2029") 5 (0x2029 ∷ []) 0
      (replace_from (text "\\u2028") 5 (0x2028 ∷ []) 0 encoded)

-- `utf16.Encode`.
unfoldable pub utf16 : Text → Text
utf16 [] = []
utf16 (c ∷ s) =
    let rest = utf16 s in
    if ltb c 0x10000
    then c ∷ rest
    else (0xd800 + (c - 0x10000) / 0x400) ∷ (0xdc00 + (c - 0x10000) % 0x400) ∷ rest

-- The length of a text in UTF-8.
unfoldable pub byte_count : Text → ℕ
byte_count [] = 0
byte_count (c ∷ s) =
    let rest = byte_count s in
    if ltb c 0x80
    then rest + 1
    else if ltb c 0x800
    then rest + 2
    else if ltb c 0x10000
    then rest + 3
    else rest + 4

-- A key with its written value, in the order of `utf16Less`.
unfoldable pub insert_entry : Text × Text → List (Text × Text) → List (Text × Text)
unfolding text_leb utf16
insert_entry e [] = e ∷ []
insert_entry e (f ∷ entries) =
    let rest = insert_entry e entries in
    if text_leb (utf16 (e.0)) (utf16 (f.0)) then e ∷ f ∷ entries else f ∷ rest

unfoldable pub sort_entries : List (Text × Text) → List (Text × Text)
unfolding insert_entry
sort_entries [] = []
sort_entries (e ∷ entries) = insert_entry e (sort_entries entries)

abbrev pub comma : Bool → Text → Text
comma first s = if first then s else b',' ∷ s

unfoldable pub join : Bool → List (Text × Text) → Text
unfolding canonical_json_string
join first [] = []
join first ((k, v) ∷ entries) =
    comma first (canonical_json_string k ++ (b':' ∷ v)) ++ join false entries

-- `writeRFC8785`, with `none` for an error. The members are written before they are sorted, which
-- changes only which of several errors comes first.
unfoldable mutual
  unfolding sort_entries join canonical_json_string text

  pub write : (Text → Option Text) → Json → Option Text
  write ecma null = some (text "null")
  write ecma (boolean true) = some (text "true")
  write ecma (boolean false) = some (text "false")
  write ecma (number n) = ecma n
  write ecma (string s) = some (canonical_json_string s)
  write ecma (array items) = do
    inner ← write_items ecma true items
    some (b'[' ∷ (inner ++ (b']' ∷ [])))
  write ecma (object ms) = do
    entries ← write_members ecma ms
    some (b'{' ∷ (join true (sort_entries entries) ++ (b'}' ∷ [])))

  pub write_items : (Text → Option Text) → Bool → Items → Option Text
  write_items ecma first no_items = some []
  write_items ecma first (item v items) = do
    head ← write ecma v
    tail ← write_items ecma false items
    some (comma first head ++ tail)

  pub write_members : (Text → Option Text) → Members → Option (List (Text × Text))
  write_members ecma no_members = some []
  write_members ecma (member k v ms) = do
    value ← write ecma v
    rest ← write_members ecma ms
    some ((k, value) ∷ rest)
