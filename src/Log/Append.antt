-- ===== src/Log/Append.antt =====
-- How a successful `append_entry` of src/store/log.rs comes about: the old log, what retention kept,
-- and the value that is built from them.
use mcp_memory_rs.Common.{
  String, ◌≡◌, refl, ◌∙◌, ap, sym, true, false, Option, none, some, List, [], ◌∷◌, ◌++◌, arith,
  Bool-cases, inl, inr, subst, and_then,
}
use mcp_memory_rs.Common.Instant.{Chrono}
use mcp_memory_rs.Json.{
  Value, object, array, Fields, Items, lookup, elements, get, as_array, set_field, from_elements,
}
use mcp_memory_rs.Json.Map.{get-set_field}
use mcp_memory_rs.Log.{
  Retention, Appended, appended, refused, panicked, not_a_log, is_log, retention_to_json, fresh_log,
  new_entry, next_id, prune_entries, append_entry, retention_key, entries_key,
}
use mcp_memory_rs.Log.Shape.{is_log-LogShape}

-- The entries that `append_entry` starts from.
unfoldable pub entries_of : Value → List Value
entries_of v = elim (and_then (get v entries_key) as_array) [ none ↦ [] | some es ↦ es ]

-- The value with its retention recorded, before the new entry goes in.
abbrev pub stamped : Value → Retention → Value
stamped v r = set_field v retention_key (retention_to_json r)

abbrev pub finished : Value → Retention → Option (List Value) → Appended
finished v r none = panicked
finished v r (some kept) =
    appended (set_field (stamped v r) entries_key (array (from_elements kept)))

module _ (chrono : Chrono) (payload : Value) (r : Retention) (now : String) where
  abbrev pub pruned : Value → Option (List Value)
  pruned v =
      prune_entries chrono (entries_of v ++ new_entry (next_id (entries_of v)) now payload ∷ []) r
        now

  pub append_entry-object :
      (m : Fields) (es : Items)
      → is_log (object m) ≡ true
      → lookup entries_key m ≡ some (array es)
      → append_entry chrono (some (object m)) payload r now
        ≡ finished (object m) r (pruned (object m))
  unfolding append_entry
  append_entry-object m es h e =
      let g : get (stamped (object m) r) entries_key ≡ some (array es) =
        get-set_field entries_key retention_key (retention_to_json r) m ∙ (unfold get in e) in
      let g' : get (object m) entries_key ≡ some (array es) = unfold get in e in
      let a : as_array (array es) ≡ some (elements es) = unfold as_array in refl in
      let q : entries_of (object m) ≡ elements es = unfold entries_of in ground arith in
      ground arith

  -- The log that is extended: the old one, or a fresh one.
  abbrev pub base : Option Value → Value
  base none = fresh_log r
  base (some v) = v

  -- How a successful call comes about.
  pub record AppendStep (v v' : Value) : Type 0 where
    pub fields : Fields
    pub kept : List Value
    pub is_object : v ≡ object fields
    pub is_log_before : is_log v ≡ true
    pub pruned_to : pruned v ≡ some kept
    pub result : v' ≡ set_field (stamped v r) entries_key (array (from_elements kept))

  finished-appended :
      (v v' : Value) (o : Option (List Value))
      → finished v r o ≡ appended v'
      → (kept : List Value) × (o ≡ some kept)
        × (v' ≡ set_field (stamped v r) entries_key (array (from_elements kept)))
  finished-appended v v' none h = cc
  finished-appended v v' (some kept) h = (kept, refl, ground arith)

  step_of_log :
      (v v' : Value)
      → is_log v ≡ true
      → append_entry chrono (some v) payload r now ≡ appended v'
      → AppendStep v v'
  step_of_log v v' l h =
      let sh = is_log-LogShape v l in
      let lo : is_log (object sh.fields) ≡ true = rw sh.is_object at l in
      let ho : append_entry chrono (some (object sh.fields)) payload r now ≡ appended v' =
        subst (λ u. append_entry chrono (some u) payload r now ≡ appended v') sh.is_object h in
      let (kept, p, q) =
        finished-appended (object sh.fields) v' (pruned (object sh.fields))
          (sym (append_entry-object sh.fields sh.entries lo sh.has_entries) ∙ ho) in
      record {
        fields = sh.fields;
        kept = kept;
        is_object = sh.is_object;
        is_log_before = l;
        pruned_to = ap pruned sh.is_object ∙ p;
        result =
            q
            ∙ ap (λ u. set_field (stamped u r) entries_key (array (from_elements kept)))
                (sym sh.is_object);
      }

  pub fresh_log-is_log : is_log (fresh_log r) ≡ true
  unfolding fresh_log is_log from_elements
  fresh_log-is_log = refl

  pub append_entry-none :
      append_entry chrono none payload r now
      ≡ append_entry chrono (some (fresh_log r)) payload r now
  unfolding append_entry
  append_entry-none = ground (arith, fresh_log-is_log)

  pub append_entry-not_log :
      (v : Value)
      → is_log v ≡ false
      → append_entry chrono (some v) payload r now ≡ refused not_a_log
  unfolding append_entry
  append_entry-not_log v h = ground arith

  pub AppendStep_of_appended :
      (existing : Option Value) (v' : Value)
      → append_entry chrono existing payload r now ≡ appended v'
      → AppendStep (base existing) v'
  AppendStep_of_appended none v' h =
      step_of_log (fresh_log r) v' fresh_log-is_log (sym append_entry-none ∙ h)
  AppendStep_of_appended (some v) v' h = elim (Bool-cases (is_log v)) [
    | inl l ↦ step_of_log v v' l h
    | inr n ↦ cc (append_entry-not_log v n, h)
  ]
