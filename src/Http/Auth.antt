-- ===== src/Http/Auth.antt =====
-- Which requests src/http_server.rs serves.
use mcp_memory_rs.Common.{
  ℕ, String, ◌<>◌, ◌≡◌, refl, ◌∙◌, ap, sym, ◌↔◌, inl, inr, true, false, Option, none, some, List,
  eq_iff, arith, Option-cases, Bool-cases,
}
use mcp_memory_rs.Common.Text.{strip_prefix, strip_prefix-append, strip_prefix_sound}
use mcp_memory_rs.Json.{Value}
use mcp_memory_rs.Error.{Result, ok}
use mcp_memory_rs.World.{World, Exec}
use mcp_memory_rs.Acl.{AclConfig}
use mcp_memory_rs.Codec.{Codec, Times}
use mcp_memory_rs.Sync.Envelope.{SyncTransferEnvelope}
use mcp_memory_rs.Http.{
  Response, unauthorized, check_auth, authorized, handle_read, handle_write, handle_delete,
  handle_history, handle_sync_export, handle_sync_import,
}

-- The token itself is sent, with "Bearer " before it or as it is, or no header and the token is empty.
pub data Sends (token : String) (auth : Option String) : Type 0 where
  bearer : auth ≡ some ("Bearer " <> token) → Sends token auth
  bare : auth ≡ some token → strip_prefix token "Bearer " ≡ none → Sends token auth
  no_header : auth ≡ none → token ≡ "" → Sends token auth

check_auth_sound :
    (token : String) (auth : Option String) → check_auth token auth ≡ true → Sends token auth
unfolding check_auth
check_auth_sound token none h = no_header refl (sym ((eq_iff "" token).0 h))
check_auth_sound token (some v) h = elim (Option-cases (strip_prefix v "Bearer ")) [
  | inl e ↦
      let q : v ≡ token = ground (arith, eq_iff v token) in
      bare (ap (λ x. some x) q) (ap (λ x. strip_prefix x "Bearer ") (sym q) ∙ e)
  | inr (r, e) ↦
      let q : r ≡ token = ground (arith, eq_iff r token) in
      bearer (ap (λ x. some x) (strip_prefix_sound v "Bearer " r e ∙ ap (λ x. "Bearer " <> x) q))
]

pub check_auth_complete :
    (token : String) (auth : Option String) → Sends token auth → check_auth token auth ≡ true
unfolding check_auth
check_auth_complete token auth (bearer e) =
    rw (e, strip_prefix-append "Bearer " token) ((eq_iff token token).1 refl)
check_auth_complete token auth (bare e f) = rw (e, f) ((eq_iff token token).1 refl)
check_auth_complete token auth (no_header e f) = rw (e, f) refl

-- A request is let in exactly if its header is the token, with or without "Bearer " before it (a token
-- that starts so itself needs it), or if it has no header and the token is the empty text.
pub check_auth_iff :
    (token : String) (auth : Option String) → (check_auth token auth ≡ true) ↔ Sends token auth
check_auth_iff token auth = (check_auth_sound token auth, check_auth_complete token auth)

-- The request is answered by the status 401, and nothing is done for it.
abbrev pub Rejected {ℓ} : {A : Type ℓ} → World → Result (Response A) × World → Type ℓ
Rejected w r = r ≡ (ok unauthorized, w)

module _ (c : Codec) (token : String) (auth : Option String) (not_sent : Sends token auth → ⊥)
    (w : World) where
  closed : check_auth token auth ≡ false
  closed = elim (Bool-cases (check_auth token auth)) [
    | inl e ↦ absurd (not_sent (check_auth_sound token auth e))
    | inr e ↦ e
  ]

  authorized-Rejected :
      {A : Type 0} (body : Exec (Response A))
      → Rejected w (authorized (check_auth token auth) body w)
  unfolding authorized
  authorized-Rejected body = rw closed refl

  -- A request that does not send the token and asks to read, write or delete a category, to list
  -- its versions, or to export or import categories for a sync, is rejected: nothing is read and
  -- nothing is changed, since no access to the store is made.
  pub requests-Rejected :
      (config : AclConfig) (category : String) (fields : Option String) (v : Value)
      (reason expected : Option String) (limit : Option ℕ) (names : List String) (now : String)
      (envelope : SyncTransferEnvelope) (strategy : Option String) (default_strategy : String)
      (t : Times) (clock delete_clock : ℕ → Times)
      → Rejected w (handle_read c token auth category fields w)
        × Rejected w (handle_write c token auth config category v reason expected t w)
        × Rejected w (handle_delete c token auth category t w)
        × Rejected w (handle_history c token auth category limit w)
        × Rejected w (handle_sync_export c token auth config names now w)
        × Rejected w (
            handle_sync_import c token auth envelope strategy default_strategy clock delete_clock w)
  unfolding handle_read handle_write handle_delete handle_history handle_sync_export
      handle_sync_import
  requests-Rejected config category fields v reason expected limit names now envelope strategy
        default_strategy t clock delete_clock =
      (
        authorized-Rejected _,
        authorized-Rejected _,
        authorized-Rejected _,
        authorized-Rejected _,
        authorized-Rejected _,
        authorized-Rejected _,
      )
