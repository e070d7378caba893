-- ===== src/Proposals/TextCodec.antt =====
-- A codec that keeps the laws of Proposals.Database, for the tests: an object is written as commands
-- of two characters for a machine with a stack, and a time as so many characters.
use Prim.Native.Char.{Char}
use Prim.Native.String.{String, [], ◌∷◌}
use saga_agents.Common.{ℕ, zero, suc, ◌≡◌, refl, ap, ◌∙◌, true, false, List, if◌then◌else◌}
use saga_agents.Common.Dict.{Dict}
use saga_agents.Common.Json.{
  Json, null, bool, number, string, array, object, Items, nil, cons, Fields, end, field,
}
use saga_agents.Common.Result.{Result, returned, raised}
use saga_agents.Common.Texts.{is_eq_char}
use saga_agents.Proposals.Database.{Codec}

data Value : Type 0 where
  text : String → Value
  value : Json → Value
  items : Items → Value
  fields : Fields → Value
  entries : Dict Json → Value

-- An arbitrary second character.
abbrev pad : Char
pad = "."

push_char : Char → List Value → List Value
push_char c (List.◌∷◌ (text s) st) = List.◌∷◌ (text (c ∷ s)) st
push_char c st = st

as_number : List Value → List Value
as_number (List.◌∷◌ (text s) st) = List.◌∷◌ (value (number s)) st
as_number st = st

as_string : List Value → List Value
as_string (List.◌∷◌ (text s) st) = List.◌∷◌ (value (string s)) st
as_string st = st

as_array : List Value → List Value
as_array (List.◌∷◌ (items xs) st) = List.◌∷◌ (value (array xs)) st
as_array st = st

as_object : List Value → List Value
as_object (List.◌∷◌ (fields xs) st) = List.◌∷◌ (value (object xs)) st
as_object st = st

add_item : List Value → List Value
add_item (List.◌∷◌ (value v) (List.◌∷◌ (items xs) st)) = List.◌∷◌ (items (cons v xs)) st
add_item st = st

add_field : List Value → List Value
add_field (List.◌∷◌ (value v) (List.◌∷◌ (text k) (List.◌∷◌ (fields xs) st))) =
    List.◌∷◌ (fields (field k v xs)) st
add_field st = st

add_entry : List Value → List Value
add_entry (List.◌∷◌ (value v) (List.◌∷◌ (text k) (List.◌∷◌ (entries xs) st))) =
    List.◌∷◌ (entries (List.◌∷◌ (k, v) xs)) st
add_entry st = st

unfoldable command : Char → Char → List Value → List Value
unfolding push_char as_number as_string as_array as_object add_item add_field add_entry
command t c st =
    if is_eq_char t "q"
    then push_char c st
    else if is_eq_char t "e"
    then List.◌∷◌ (text "") st
    else if is_eq_char t "0"
    then List.◌∷◌ (value null) st
    else if is_eq_char t "t"
    then List.◌∷◌ (value (bool true)) st
    else if is_eq_char t "f"
    then List.◌∷◌ (value (bool false)) st
    else if is_eq_char t "n"
    then as_number st
    else if is_eq_char t "s"
    then as_string st
    else if is_eq_char t "("
    then List.◌∷◌ (items nil) st
    else if is_eq_char t ","
    then add_item st
    else if is_eq_char t "a"
    then as_array st
    else if is_eq_char t "{"
    then List.◌∷◌ (fields end) st
    else if is_eq_char t ":"
    then add_field st
    else if is_eq_char t "o"
    then as_object st
    else if is_eq_char t "d"
    then List.◌∷◌ (entries List.[]) st
    else add_entry st

unfoldable exec : String → List Value → List Value
unfolding command
exec [] st = st
exec (t ∷ []) st = st
exec (t ∷ c ∷ rest) st = exec rest (command t c st)

-- Each writes its value in front of the commands to come.
write_text : String → String → String
write_text [] k = "e" ∷ pad ∷ k
write_text (c ∷ s) k = write_text s ("q" ∷ c ∷ k)

mutual
  write : Json → String → String
  write null k = "0" ∷ pad ∷ k
  write (bool true) k = "t" ∷ pad ∷ k
  write (bool false) k = "f" ∷ pad ∷ k
  write (number s) k = write_text s ("n" ∷ pad ∷ k)
  write (string s) k = write_text s ("s" ∷ pad ∷ k)
  write (array xs) k = write_items xs ("a" ∷ pad ∷ k)
  write (object xs) k = write_fields xs ("o" ∷ pad ∷ k)

  write_items : Items → String → String
  write_items nil k = "(" ∷ pad ∷ k
  write_items (cons v xs) k = write_items xs (write v ("," ∷ pad ∷ k))

  write_fields : Fields → String → String
  write_fields end k = "{" ∷ pad ∷ k
  write_fields (field n v xs) k = write_fields xs (write_text n (write v (":" ∷ pad ∷ k)))

write_entries : Dict Json → String → String
write_entries List.[] k = "d" ∷ pad ∷ k
write_entries (List.◌∷◌ (n, v) xs) k = write_entries xs (write_text n (write v ("+" ∷ pad ∷ k)))

exec_text :
    (s k : String) (st : List Value) → exec (write_text s k) st ≡ exec k (List.◌∷◌ (text s) st)
unfolding exec write_text
exec_text [] k st = refl
exec_text (c ∷ s) k st = exec_text s ("q" ∷ c ∷ k) st

mutual
  unfolding exec write write_items write_fields

  exec_json :
      (v : Json) (k : String) (st : List Value)
      → exec (write v k) st ≡ exec k (List.◌∷◌ (value v) st)
  exec_json null k st = refl
  exec_json (bool true) k st = refl
  exec_json (bool false) k st = refl
  exec_json (number s) k st = exec_text s _ st
  exec_json (string s) k st = exec_text s _ st
  exec_json (array xs) k st = exec_items xs _ st
  exec_json (object xs) k st = exec_fields xs _ st

  exec_items :
      (v : Items) (k : String) (st : List Value)
      → exec (write_items v k) st ≡ exec k (List.◌∷◌ (items v) st)
  exec_items nil k st = refl
  exec_items (cons v xs) k st = exec_items xs _ st ∙ exec_json v _ _

  exec_fields :
      (v : Fields) (k : String) (st : List Value)
      → exec (write_fields v k) st ≡ exec k (List.◌∷◌ (fields v) st)
  exec_fields end k st = refl
  exec_fields (field n v xs) k st = exec_fields xs _ st ∙ exec_text n _ _ ∙ exec_json v _ _

exec_entries :
    (v : Dict Json) (k : String) (st : List Value)
    → exec (write_entries v k) st ≡ exec k (List.◌∷◌ (entries v) st)
unfolding exec write_entries
exec_entries List.[] k st = refl
exec_entries (List.◌∷◌ (n, v) xs) k st = exec_entries xs _ st ∙ exec_text n _ _ ∙ exec_json v _ _

abbrev top : List Value → Result (Dict Json)
top (List.◌∷◌ (entries d) st) = returned d
top st = raised "JSONDecodeError"

ticks : ℕ → String
ticks zero = []
ticks (suc n) = "|" ∷ ticks n

count_ticks : String → ℕ
count_ticks [] = 0
count_ticks (c ∷ s) = suc (count_ticks s)

count_ticks-ticks : (n : ℕ) → count_ticks (ticks n) ≡ n
unfolding ticks count_ticks
count_ticks-ticks zero = refl
count_ticks-ticks (suc n) = ap suc (count_ticks-ticks n)

pub text_codec : Codec
unfolding exec write_entries ticks count_ticks
text_codec = record {
  dumps = λ d. write_entries d "";
  loads = λ s. top (exec s List.[]);
  isoformat = ticks;
  fromisoformat = λ s. returned (count_ticks s);
  loads-dumps = λ d. ap top (exec_entries d "" List.[]);
  fromisoformat-isoformat = λ n. ap returned (count_ticks-ticks n);
}
