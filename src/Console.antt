-- ===== src/Console.antt =====
-- The console's entries (cmd/anfra/console_session.go, and `splitArgs` of cmd/anfra/console.go): an
-- entry split into words, whether it is whole, and what it asks for.
use anfra.Prelude.{
  ℕ, String, Bool, true, false, ◌||◌, List, [], ◌∷◌, ◌==◌, if◌then◌else◌, cat, Result, ok, err,
}
use Prim.Native.Char.{Char, code}
use Prim.Native.String
mod Words
pub mod Flags
mod Entries
mod Tests

-- Where `splitArgs` is in its text: `escape` and `kept` are after a backslash, outside quotes and in
-- double ones, whose next character the code reads with it.
pub data Place : Type 0 where
  outside single double escape kept : Place

push : String → Char → String
push word c = cat word (String.◌∷◌ c String.[])

backslash : Char
backslash = "\\"

-- `strings.ContainsRune("$`\"\\\n", c)`
is_kept : ℕ → Bool
is_kept c = c == b'$' || (c == b'`' || (c == 34 || (c == 92 || c == 10)))

is_gap : ℕ → Bool
is_gap c = c == 32 || (c == 9 || c == 10)

ended : Bool → String → Result ℕ (List String) → Result ℕ (List String)
ended false word r = r
ended true word (err q) = err q
ended true word (ok ws) = ok (word ∷ ws)

-- `splitArgs`' loop; an error is the quote that isn't closed.
split_from : Place → Bool → String → String → Result ℕ (List String)
unfolding push is_kept is_gap ended backslash
split_from outside in_word word String.[] = ended in_word word (ok [])
split_from single in_word word String.[] = err 39
split_from double in_word word String.[] = err 34
split_from escape in_word word String.[] = ok (word ∷ [])
split_from kept in_word word String.[] = err 34
split_from single in_word word (String.◌∷◌ c s) =
    let closed = split_from outside in_word word s in
    let more = split_from single in_word (push word c) s in if code c == 39 then closed else more
split_from double in_word word (String.◌∷◌ c s) =
    let closed = split_from outside in_word word s in
    let next = split_from kept in_word word s in
    let more = split_from double in_word (push word c) s in
    if code c == 34 then closed else if code c == 92 then next else more
split_from kept in_word word (String.◌∷◌ c s) =
    let bare = split_from double in_word (push word c) s in
    let both = split_from double in_word (push (push word backslash) c) s in
    if is_kept (code c) then bare else both
split_from escape in_word word (String.◌∷◌ c s) = split_from outside true (push word c) s
split_from outside in_word word (String.◌∷◌ c s) =
    let in_single = split_from single true word s in
    let in_double = split_from double true word s in
    let escaped = split_from escape true word s in
    let gap = ended in_word word (split_from outside false "" s) in
    let more = split_from outside true (push word c) s in
    if code c == 39
    then in_single
    else if code c == 34
    then in_double
    else if code c == 92
    then escaped
    else if is_gap (code c)
    then gap
    else more

-- `splitArgs`
unfoldable pub split_args : String → Result ℕ (List String)
unfolding split_from
split_args s = split_from outside false "" s
