-- ===== src/Tests/Mutations.antt =====
-- The mutations on one store, with a crash or an error on the way.
use mathlib.Core.Option.{some-injective}
use mcp_memory_rs.Log.{is_log}
use mcp_memory_rs.Db.{CategoryMeta, hash_of_row}
use mcp_memory_rs.Error.{ok}
use mcp_memory_rs.Common.Text.{contains, strip_prefix}
use mcp_memory_rs.AtomicJson.Recoverable.{Recoverable}
use mcp_memory_rs.Codec.{Times}
use mcp_memory_rs.Store.Completing.{Calm}
use mcp_memory_rs.Store.Guards.{Expected}
use mcp_memory_rs.Store.Returning.{write_with-returns}
use mcp_memory_rs.Common.{
  ℕ, ap, sym, ◌∙◌, false, ◌==◌, ◌||◌, ◌≡◌, refl, Option, none, some, [], ◌∷◌, String,
}
use mcp_memory_rs.Common.Map.{find, keys}
use mcp_memory_rs.Json.{Value, text, get}
use mcp_memory_rs.World.{World, done, crashes}
use mcp_memory_rs.World.Ends.{Ends}
use mcp_memory_rs.AtomicJson.Settling.{Settling}
use mcp_memory_rs.Store.Current.{Current}
use mcp_memory_rs.Store.Write.{replace, write_with}
use mcp_memory_rs.Store.Remote.{reason_text}
use mcp_memory_rs.Store.Writing
use mcp_memory_rs.Store.Appending
use mcp_memory_rs.Store.Removing
use mcp_memory_rs.Store.Importing
use mcp_memory_rs.Store.Importing.Local
use mcp_memory_rs.Tests.Fixtures.{
  codec, times, one_row, base_row, disk, world, disk-Recoverable, base_dot_free,
}

-- A process that is cut short while it writes the staged file.
abbrev torn : World
torn = world (done ∷ crashes (some "half") ∷ [])

abbrev new_text : Value
new_text = text "B"

-- The hash of the peer is cut inside a character.
cut_inside : reason_text (some "pull") "A" "1234567é" ≡ none
unfolding reason_text
cut_inside = refl

cut_between : reason_text (some "pull") "A" "123456789" ≡ some "pull (remote hash 12345678)"
unfolding reason_text
cut_between = refl

Calm-base : Calm codec "base" base_row "A" (text "A") disk
unfolding find keys strip_prefix
Calm-base = record {
  recoverable = disk-Recoverable;
  at_rest = refl;
  none_staged = refl;
  none_parked = refl;
  has_row = refl;
  has_file = refl;
  has_hash = refl;
  readable = λ b e. ap (λ s. some (text s)) e;
}

text_no_log : is_log (text "A") ≡ false
unfolding is_log get
text_no_log = refl

Expected-a : Expected (some "A") (some base_row)
Expected-a h m e f = some-injective _ _ (sym (ap (λ o. hash_of_row o) f)) ∙ some-injective _ _ e

base_is_valid :
    ("base" == "" || contains "base" "/" || contains "base" "\\" || contains "base" "..") ≡ false
unfolding contains
base_is_valid = refl

write_with-returns_example :
    (r : Option String × CategoryMeta) × (u : World) × (write_with codec "base"
        (replace new_text)
        none
        "tower"
        (some "A")
        times
        (world [])
      ≡ (ok r, u))
    × Writing.Wrote codec "base" base_dot_free
        (replace new_text)
        none
        "tower"
        (some "A")
        times
        disk.files
        one_row
        r
        u.disk
write_with-returns_example =
    write_with-returns codec "base" base_dot_free (replace new_text) none "tower" (some "A") times
      base_row (text "A") text_no_log Expected-a "A" (world []) refl base_is_valid Calm-base

-- A process stopped between its COMMIT and the promotion of the file.
abbrev left_over : World
left_over = record {
  disk = record disk { files = ("base.json", "A") ∷ ("base.json.new.1-1", "B") ∷ [] };
  faults = done ∷ crashes none ∷ [];
}

abbrev opened : ℕ → Times
opened _ = times
