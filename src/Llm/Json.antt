-- ===== src/Llm/Json.antt =====
-- The JSON values that tool arguments are, and `json.dumps` with its default settings, which
-- escapes everything outside printable ASCII.
use dudamel.Prelude.{
  ℕ, ◌+◌, ◌-◌, ◌/◌, ◌%◌, ◌≡◌, refl, Bool, true, false, ◌&&◌, Text, [], ◌∷◌, ◌++◌, codes, ltb, leb,
  nat_eq, if◌then◌else◌,
}

-- A number carries the form in which Python prints it.
mutual
  pub data Json : Type 0 where
    null : Json
    bool : Bool → Json
    num : Text → Json
    str : Text → Json
    arr : Items → Json
    obj : Fields → Json

  pub data Items : Type 0 where
    nil : Items
    cons : Json → Items → Items

  pub data Fields : Type 0 where
    end : Fields
    field : Text → Json → Fields → Fields

hex_digit : ℕ → ℕ
hex_digit d = if ltb d 10 then 48 + d else 87 + d

-- `\uXXXX`
escape_unit : ℕ → Text
unfolding hex_digit
escape_unit c =
    b'\\'
    ∷ b'u'
    ∷ hex_digit (c / 4096 % 16)
    ∷ hex_digit (c / 256 % 16)
    ∷ hex_digit (c / 16 % 16)
    ∷ hex_digit (c % 16)
    ∷ []

-- One character inside a JSON string; past the first plane it is written as two surrogates.
escape_char : ℕ → Text
unfolding escape_unit
escape_char c =
    if nat_eq c 34
    then 92 ∷ 34 ∷ []
    else if nat_eq c 92
    then 92 ∷ 92 ∷ []
    else if nat_eq c 10
    then 92 ∷ b'n' ∷ []
    else if nat_eq c 13
    then 92 ∷ b'r' ∷ []
    else if nat_eq c 9
    then 92 ∷ b't' ∷ []
    else if nat_eq c 12
    then 92 ∷ b'f' ∷ []
    else if nat_eq c 8
    then 92 ∷ b'b' ∷ []
    else if leb 32 c && leb c 126
    then c ∷ []
    else if ltb c 65536
    then escape_unit c
    else escape_unit (55296 + (c - 65536) / 1024) ++ escape_unit (56320 + (c - 65536) % 1024)

escape_all : Text → Text
unfolding escape_char
escape_all [] = []
escape_all (c ∷ s) = escape_char c ++ escape_all s

quote : Text → Text
unfolding escape_all
quote s = 34 ∷ (escape_all s ++ (34 ∷ []))

-- `json.dumps(v)`; the items after the first are led by `", "`.
unfoldable mutual
  unfolding quote

  pub dumps : Json → Text
  dumps null = codes "null"
  dumps (bool true) = codes "true"
  dumps (bool false) = codes "false"
  dumps (num n) = n
  dumps (str s) = quote s
  dumps (arr xs) = b'[' ∷ (dumps_items true xs ++ (b']' ∷ []))
  dumps (obj fs) = b'{' ∷ (dumps_fields true fs ++ (b'}' ∷ []))

  pub dumps_items : Bool → Items → Text
  dumps_items first nil = []
  dumps_items first (cons v xs) =
      (if first then [] else codes ", ") ++ (dumps v ++ dumps_items false xs)

  pub dumps_fields : Bool → Fields → Text
  dumps_fields first end = []
  dumps_fields first (field k v fs) =
      (if first then [] else codes ", ")
      ++ (quote k ++ (codes ": " ++ (dumps v ++ dumps_fields false fs)))

dumps_example :
    dumps (
      obj (
        field
          (codes "a")
          (arr (cons (num (codes "1")) (cons null nil)))
          (field (codes "é\n") (bool true) end)))
    ≡ codes "{\"a\": [1, null], \"\\u00e9\\n\": true}"
unfolding dumps
dumps_example = refl
