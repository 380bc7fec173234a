-- ===== src/Auth/Tokens.antt =====
-- The API tokens of AuthService: CreateAPIToken, DeleteAPIToken and ResolveAPIToken. The random
-- part of a token is an argument, `none` where rand.Read fails.
use blackgrid.Prelude.{
  ℕ, String, Bool, false, not, if◌then◌else◌, ltb, ◌||◌, Option, none, some, List, [], ◌∷◌, find_if,
  Result, ok, err, suc, update_by, remove_by, find_by, is_some, sprintf,
}
use text.Mathlib.Text.{◌==◌ as str_eq}
use blackgrid.Model.{Role, User, ApiToken, Event, api_token_changed, Value, string, uuid}
use blackgrid.Auth.{
  Crypto, AuthService, AuthStore, AuthQuery, get_user_by_id, get_api_token_by_hash, touch_api_token,
  create_api_token_row, get_api_token_by_id, delete_api_token_row, AuthError, user_not_found,
  user_disabled, invalid_role, token_expired, token_not_found, token_role_exceeds_owner,
  database_error, random_error, is_valid_role, role_allows, find_user, entry_by, audit,
  publish_event,
}

abbrev pub token_id_of : ApiToken → ℕ
token_id_of x = x.id

abbrev pub find_token : String → AuthStore → Option ApiToken
find_token hash s = find_if (λ (x : ApiToken). str_eq x.token_hash hash) s.api_tokens

abbrev pub token_event : ℕ → List (String × Value) → Event
token_event id payload = record {
  event_type = api_token_changed;
  object_type = "api_token";
  object_id = id;
  payload = payload;
}

pub record CreateApiTokenInput : Type 0 where
  pub user_id : ℕ
  pub name : String
  pub role : Role
  pub expires_at : Option ℕ

abbrev pub new_token : ℕ → CreateApiTokenInput → String → ApiToken
new_token id p hash = record {
  id = id;
  user_id = p.user_id;
  name = p.name;
  token_hash = hash;
  role = p.role;
  last_used_at = none;
  expires_at = p.expires_at;
}

abbrev pub insert_token : ApiToken → AuthStore → AuthStore
insert_token x s = record s { api_tokens = x ∷ s.api_tokens; next_id = suc s.next_id }

-- tokenPrefix + hex.EncodeToString(rawBytes)
abbrev pub token_text : String → String
token_text raw = sprintf ("bg_" ∷ raw ∷ [])

-- q.CreateAPIToken: the hash is unique in the table.
unfoldable pub create_token_row :
    AuthService
    → (AuthQuery → Bool)
    → ℕ
    → String
    → ApiToken
    → AuthStore
    → Result AuthError (String × ApiToken) × AuthStore
create_token_row svc fails actor plaintext x s =
    if fails create_api_token_row || is_some (find_token x.token_hash s)
    then (err (database_error create_api_token_row), s)
    else (
      ok (plaintext, x),
      publish_event svc
          (token_event x.id (
            ("action", string "created")
            ∷ ("name", string x.name)
            ∷ ("user_id", uuid x.user_id)
            ∷ []))
          (audit svc (entry_by "api_token.create" "api_token" x.id actor) (insert_token x s)),
    )

unfoldable pub create_api_token :
    Crypto
    → AuthService
    → (AuthQuery → Bool)
    → ℕ
    → Option String
    → CreateApiTokenInput
    → AuthStore
    → Result AuthError (String × ApiToken) × AuthStore
unfolding create_token_row
create_api_token cr svc fails actor random p s =
    if not (is_valid_role p.role)
    then (err invalid_role, s)
    else if fails get_user_by_id
    then (err user_not_found, s)
    else (elim (find_user p.user_id s) [
      | none ↦ (err user_not_found, s)
      | some owner ↦
          if not (role_allows owner.role p.role)
          then (err token_role_exceeds_owner, s)
          else (elim random [
            | none ↦ (err random_error, s)
            | some raw ↦
                create_token_row svc fails actor (token_text raw)
                  (new_token s.next_id p (cr.sha256_hex (token_text raw))) s
          ])
    ])

unfoldable pub delete_api_token :
    AuthService → (AuthQuery → Bool) → ℕ → ℕ → AuthStore → Option AuthError × AuthStore
delete_api_token svc fails actor id s =
    if fails get_api_token_by_id
    then (some (database_error get_api_token_by_id), s)
    else (elim (find_by token_id_of id s.api_tokens) [
      | none ↦ (some token_not_found, s)
      | some x ↦
          if fails delete_api_token_row then (some (database_error delete_api_token_row), s) else (
            none,
            publish_event svc (token_event id (("action", string "deleted") ∷ [])) (
                audit svc (entry_by "api_token.delete" "api_token" x.id actor)
                  (record s { api_tokens = remove_by token_id_of id s.api_tokens })),
          )
    ])

-- tok.ExpiresAt.Valid && time.Now().After(tok.ExpiresAt.Time)
abbrev pub has_expired : ℕ → Option ℕ → Bool
has_expired now none = false
has_expired now (some at) = ltb at now

-- The goroutine of TouchAPIToken, at the time of the call; its error is logged.
abbrev pub touch_token : (AuthQuery → Bool) → ℕ → ℕ → AuthStore → AuthStore
touch_token fails now id s = if fails touch_api_token then s else record s {
  api_tokens = update_by token_id_of id (λ x. record x { last_used_at = some now }) s.api_tokens;
}

unfoldable pub resolve_api_token :
    Crypto
    → (AuthQuery → Bool)
    → ℕ
    → String
    → AuthStore
    → Result AuthError (User × ApiToken) × AuthStore
resolve_api_token cr fails now token s =
    if fails get_api_token_by_hash
    then (err (database_error get_api_token_by_hash), s)
    else (elim (find_token (cr.sha256_hex token) s) [
      | none ↦ (err token_not_found, s)
      | some x ↦
          if has_expired now x.expires_at
          then (err token_expired, s)
          else if fails get_user_by_id
          then (err (database_error get_user_by_id), s)
          else (elim (find_user x.user_id s) [
            | none ↦ (err (database_error get_user_by_id), s)
            | some user ↦
                if not user.enabled
                then (err user_disabled, s)
                else (ok (user, x), touch_token fails now x.id s)
          ])
    ])
