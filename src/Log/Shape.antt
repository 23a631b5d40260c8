-- ===== src/Log/Shape.antt =====
-- Which values are logs, and what stays a log when its fields are set.
use mcp_memory_rs.Common.{◌≡◌, refl, true, Option, none, some, arith, eq_iff}
use mcp_memory_rs.Json.{Value, null, text, array, object, Items, Fields, lookup}
use mcp_memory_rs.Log.{is_log, kind_key, entries_key, log_kind}

-- A log is an object with the marker and an array of entries.
pub record LogShape (v : Value) : Type 0 where
  pub fields : Fields
  pub entries : Items
  pub is_object : v ≡ object fields
  pub has_kind : lookup kind_key fields ≡ some (text log_kind)
  pub has_entries : lookup entries_key fields ≡ some (array entries)

shape_of_fields :
    (m : Fields) (k e : Option Value)
    → lookup kind_key m ≡ k
    → lookup entries_key m ≡ e
    → is_log (object m) ≡ true
    → LogShape (object m)
unfolding is_log
shape_of_fields m (some (text s)) (some (array es)) hk he h = record {
  fields = m;
  entries = es;
  is_object = refl;
  has_kind = ground (arith, eq_iff s log_kind);
  has_entries = he;
}
shape_of_fields m (some _) (some _) hk he h = absurd (ground arith)
shape_of_fields m none e hk he h = absurd (ground arith)
shape_of_fields m (some k) none hk he h = absurd (ground arith)

pub is_log-LogShape : (v : Value) → is_log v ≡ true → LogShape v
unfolding is_log
is_log-LogShape (object m) h = shape_of_fields m _ _ refl refl h
is_log-LogShape null h = absurd (ground arith)
is_log-LogShape _ h = absurd (ground arith)

pub LogShape-is_log :
    (m : Fields) (es : Items)
    → lookup kind_key m ≡ some (text log_kind)
    → lookup entries_key m ≡ some (array es)
    → is_log (object m) ≡ true
unfolding is_log
LogShape-is_log m es hk he = rw (hk, he)
