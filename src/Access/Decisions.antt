-- ===== src/Access/Decisions.antt =====
-- Who gets through the authentication and a check of the scope.
use payments_hub.Base.{
  ℕ, ◌≡◌, ◌≢◌, ◌⊎◌, ◌++◌, ◌||◌, ◌==◌, Bool-cases, inl, inr, refl, sym, ap, ◌∙◌, Bool, true, false,
  Option, none, some, List, [], ◌∷◌, if◌then◌else◌, arith,
}
use payments_hub.Base.Bytes.{Bytes, codes}
use payments_hub.Base.Result.{Result, ok, err}
use payments_hub.Base.Utf8.{trim_space}
use payments_hub.Access.{
  judged, ApiKey, Claims, Context, no_context, Doors, Decision, pass, reject, bearer_token,
  after_prefix, non_empty, starts_with, trim_prefix, accept_key, api_key_auth, accept_claims,
  jwt_auth, has_scope, level, role_covers, required_role, role_of, require_scope, then_by,
  dual_auth, with_tenant, claimed_tenant,
}

-- No role covers anything without a level, and a role without one covers nothing.
no_role : (need : Bytes) → role_covers [] need ≡ false
unfolding role_covers level
no_role need = ground arith

passed :
    (b : Bool) (c d : Context) (message : Bytes)
    → (if b then pass c else reject 403 message) ≡ pass d
    → (b ≡ true) × (d ≡ c)
passed true c d message h = (refl, same_context c d h)
  where
    same_context : (c d : Context) → pass c ≡ pass d → d ≡ c
    same_context c d h = cc
passed false c d message h = cc

judged_passed :
    (scope : Bytes) (scopes : List Bytes) (c d : Context)
    → judged scope scopes c ≡ pass d
    → (d ≡ c)
      × ((has_scope scopes scope ≡ true)
          ⊎ ((scopes ≡ []) × (role_covers (role_of c.claims) (required_role scope) ≡ true)))
judged_passed scope [] c d h =
    let (b, e) = passed (role_covers (role_of c.claims) (required_role scope)) c d _ h in
    (e, inr (refl, b))
judged_passed scope (s ∷ scopes) c d h =
    let (b, e) = passed (has_scope (s ∷ scopes) scope) c d _ h in (e, inl b)

scope_passed :
    (scope : Bytes) (c d : Context)
    → require_scope scope c ≡ pass d
    → (d ≡ c)
      × ((has_scope c.scopes scope ≡ true)
          ⊎ ((c.scopes ≡ []) × (role_covers (role_of c.claims) (required_role scope) ≡ true)))
unfolding require_scope
scope_passed scope c d h = judged_passed scope c.scopes c d h

false-true : ¬ (false ≡ true)
false-true h = cc

-- A tenant changes nothing else in the context.
with_tenant-scopes : (o : Option ℕ) (c : Context) → (with_tenant o c).scopes ≡ c.scopes
with_tenant-scopes none c = refl
with_tenant-scopes (some t) c = refl

with_tenant-claims : (o : Option ℕ) (c : Context) → (with_tenant o c).claims ≡ c.claims
with_tenant-claims none c = refl
with_tenant-claims (some t) c = refl

with_tenant-id : (o : Option ℕ) (c : Context) → (with_tenant o c).api_key_id ≡ c.api_key_id
with_tenant-id none c = refl
with_tenant-id (some t) c = refl

if_rejected :
    (b : Bool) (s t : Bytes) (d : Context) (next : Context → Decision)
    → ¬ (then_by (if b then reject 401 s else reject 500 t) next ≡ pass d)
if_rejected true s t d next h = cc
if_rejected false s t d next h = cc

rejected_passes : {code : ℕ} {message : Bytes} {d : Context} → ¬ (reject code message ≡ pass d)
rejected_passes h = cc

-- How the token of an API key begins.
abbrev pub is_key_text : Bytes → Bool
is_key_text text = starts_with (codes "phk_") text || starts_with (codes "admin-demo") text

prefix_of : (p s rest : Bytes) → after_prefix p s ≡ some rest → s ≡ p ++ rest
prefix_of [] s rest h = cc
prefix_of (b ∷ p) [] rest h = cc
prefix_of (b ∷ p) (c ∷ s) rest h = elim (Bool-cases (b == c)) [
  | inl e ↦
      let k : c ≡ b = ground (arith, e) in
      ap (λ x. c ∷ x) (prefix_of p s rest (rw e at h)) ∙ ap (λ n. n ∷ p ++ rest) k
  | inr e ↦ cc (rw e at h)
]

trimmed : (p s rest : Bytes) → after_prefix p s ≡ some rest → trim_prefix p s ≡ rest
trimmed p s rest h = rw (h, trim_prefix) refl

bearer_token-some :
    (header t : Bytes)
    → bearer_token header ≡ some t
    → (text : Bytes) × (after_prefix (codes "Bearer ") header ≡ some text)
      × (trim_space text ≡ t)
      × (trim_space text ≢ [])
unfolding bearer_token
bearer_token-some header t h = go (after_prefix (codes "Bearer ") header) refl h
  where
    text_of :
        (text s : Bytes)
        → trim_space text ≡ s
        → non_empty s ≡ some t
        → (trim_space text ≡ t) × (trim_space text ≢ [])
    text_of text [] e k = cc
    text_of text (b ∷ s) e k = (cc, λ q. cc)

    go :
        (o : Option Bytes)
        → after_prefix (codes "Bearer ") header ≡ o
        → elim o [ none ↦ none | some t ↦ non_empty (trim_space t) ] ≡ some t
        → (text : Bytes) × (after_prefix (codes "Bearer ") header ≡ some text)
          × (trim_space text ≡ t)
          × (trim_space text ≢ [])
    go none e k = cc
    go (some text) e k = let (a, b) = text_of text (trim_space text) refl k in (text, e, a, b)

module _ (doors : Doors) where
  -- What the header carries: the API key of a token that begins like one, which is known and has
  -- the scope, or the JWT of a user with a role that the scope asks for.
  abbrev pub MayPass : Bytes → Bytes → Context → Type 0
  MayPass scope header c =
      ((text : Bytes) × (key : ApiKey) × (header ≡ codes "Bearer " ++ text)
        × (is_key_text text ≡ true)
        × (trim_space text ≢ [])
        × (doors.get_by_hash (doors.hash_token (trim_space text)) ≡ ok key)
        × (has_scope key.scopes scope ≡ true)
        × (c.api_key_id ≡ key.id))
      ⊎ ((raw : Bytes) × (user : Claims) × (header ≡ codes "Bearer " ++ raw)
          × (is_key_text raw ≡ false)
          × (doors.parse_jwt raw ≡ some user)
          × (role_covers user.role (required_role scope) ≡ true)
          × (c.claims ≡ some user))

  abbrev KeyPass : Bytes → Bytes → Context → Type 0
  KeyPass scope token c =
      (key : ApiKey) × (doors.get_by_hash (doors.hash_token token) ≡ ok key)
      × (has_scope key.scopes scope ≡ true)
      × (c.api_key_id ≡ key.id)

  abbrev UserPass : Bytes → Bytes → Context → Type 0
  UserPass scope raw c =
      (user : Claims) × (doors.parse_jwt raw ≡ some user)
      × (role_covers user.role (required_role scope) ≡ true)
      × (c.claims ≡ some user)

  KeyPass-key :
      (scope token : Bytes) (found : Result ApiKey) (d : Context)
      → doors.get_by_hash (doors.hash_token token) ≡ found
      → then_by (accept_key doors found no_context) (require_scope scope) ≡ pass d
      → KeyPass scope token d
  unfolding accept_key
  KeyPass-key scope token (ok key) d e h = by_scopes (scope_passed scope (key_context key) d h)
    where
      key_context : ApiKey → Context
      key_context key =
          with_tenant key.client_id
            (record no_context { api_key_id = key.id; scopes = key.scopes; label = key.label })

      by_scopes :
          (d ≡ key_context key)
            × ((has_scope (key_context key).scopes scope ≡ true)
                ⊎ (((key_context key).scopes ≡ [])
                    × (role_covers (role_of (key_context key).claims) (required_role scope)
                        ≡ true)))
          → KeyPass scope token d
      by_scopes (f, inl g) = (
        key,
        e,
        ap (λ s. has_scope s scope) (sym (with_tenant-scopes key.client_id _)) ∙ g,
        ap (λ c. c.api_key_id) f ∙ with_tenant-id key.client_id _,
      )
      by_scopes (f, inr (_, g)) = absurd (
          false-true (
            sym (no_role (required_role scope))
            ∙ ap (λ o. role_covers (role_of o) (required_role scope))
                (sym (with_tenant-claims key.client_id _))
            ∙ g))
  KeyPass-key scope token (err x) d e h = absurd (if_rejected _ _ _ d (require_scope scope) h)

  UserPass-user :
      (scope raw : Bytes) (user : Claims) (d : Context)
      → doors.parse_jwt raw ≡ some user
      → then_by (accept_claims doors user no_context) (require_scope scope) ≡ pass d
      → UserPass scope raw d
  unfolding accept_claims
  UserPass-user scope raw user d e h = by_role (scope_passed scope user_context d h)
    where
      user_context : Context
      user_context =
          with_tenant (claimed_tenant doors user.client_id)
            (record no_context { claims = some user })

      by_role :
          (d ≡ user_context)
            × ((has_scope user_context.scopes scope ≡ true)
                ⊎ ((user_context.scopes ≡ [])
                    × (role_covers (role_of user_context.claims) (required_role scope) ≡ true)))
          → UserPass scope raw d
      by_role (f, inl g) = absurd (
          false-true (
            ap (λ s. has_scope s scope)
              (sym (with_tenant-scopes (claimed_tenant doors user.client_id) _))
            ∙ g))
      by_role (f, inr (_, g)) = (
        user,
        e,
        ap (λ o. role_covers (role_of o) (required_role scope))
              (sym (with_tenant-claims (claimed_tenant doors user.client_id) _))
            ∙ g,
        ap (λ c. c.claims) f ∙ with_tenant-claims (claimed_tenant doors user.client_id) _,
      )

  opened_key :
      (scope : Bytes) (token : Option Bytes) (d : Context)
      → then_by
          (elim token [
            | none ↦ reject 401 (codes "missing_or_malformed_authorization")
            | some t ↦ accept_key doors (doors.get_by_hash (doors.hash_token t)) no_context
          ])
          (require_scope scope)
        ≡ pass d
      → (t : Bytes) × (token ≡ some t) × KeyPass scope t d
  opened_key scope none d h = absurd (rejected_passes h)
  opened_key scope (some t) d h =
      (t, refl, KeyPass-key scope t (doors.get_by_hash (doors.hash_token t)) d refl h)

  opened_jwt :
      (scope raw : Bytes) (o : Option Claims) (d : Context)
      → doors.parse_jwt raw ≡ o
      → then_by
          (elim o [
            | none ↦ reject 401 (codes "invalid token")
            | some claims ↦ accept_claims doors claims no_context
          ])
          (require_scope scope)
        ≡ pass d
      → UserPass scope raw d
  opened_jwt scope raw none d e h = absurd (rejected_passes h)
  opened_jwt scope raw (some user) d e h = UserPass-user scope raw user d e h

  jwt_MayPass :
      (scope header : Bytes) (rest : Option Bytes) (d : Context)
      → after_prefix (codes "Bearer ") header ≡ rest
      → is_key_text (trim_prefix (codes "Bearer ") header) ≡ false
      → then_by
          (elim rest [
            | none ↦ reject 401 (codes "missing token")
            | some raw ↦ elim (doors.parse_jwt raw) [
              | none ↦ reject 401 (codes "invalid token")
              | some claims ↦ accept_claims doors claims no_context
            ]
          ])
          (require_scope scope)
        ≡ pass d
      → MayPass scope header d
  jwt_MayPass scope header none d e k h = absurd (rejected_passes h)
  jwt_MayPass scope header (some raw) d e k h =
      let (user, p, q, r) = opened_jwt scope raw (doors.parse_jwt raw) d refl h in
      inr (
        raw,
        user,
        prefix_of (codes "Bearer ") header raw e,
        ap is_key_text (sym (trimmed (codes "Bearer ") header raw e)) ∙ k,
        p,
        q,
        r,
      )

  key_MayPass :
      (scope header t : Bytes) (d : Context)
      → bearer_token header ≡ some t
      → is_key_text (trim_prefix (codes "Bearer ") header) ≡ true
      → KeyPass scope t d
      → MayPass scope header d
  key_MayPass scope header t d e k (key, p, q, r) =
      let (text, a, b, c) = bearer_token-some header t e in
      inl (
        text,
        key,
        prefix_of (codes "Bearer ") header text a,
        ap is_key_text (sym (trimmed (codes "Bearer ") header text a)) ∙ k,
        c,
        ap (λ x. doors.get_by_hash (doors.hash_token x)) b ∙ p,
        q,
        r,
      )

  -- A request gets through the authentication and the check of a scope only in two ways. Its header
  -- is "Bearer " and a text that begins with "phk_" or "admin-demo" and that, without the white space
  -- around it, is a key that the store knows and that has this scope or the admin's; or its header
  -- is "Bearer " and another text that is a valid JWT, whose role covers the one that the scope asks
  -- for. The handler then sees that key or these claims.
  pub dual_auth-MayPass :
      (scope header : Bytes) (d : Context)
      → then_by (dual_auth doors header no_context) (require_scope scope) ≡ pass d
      → MayPass scope header d
  unfolding dual_auth api_key_auth jwt_auth
  dual_auth-MayPass scope header d h =
      by_token (is_key_text (trim_prefix (codes "Bearer ") header)) refl h
    where
      by_token :
          (b : Bool)
          → is_key_text (trim_prefix (codes "Bearer ") header) ≡ b
          → then_by
              (if b then api_key_auth doors header no_context else jwt_auth doors header no_context)
              (require_scope scope)
            ≡ pass d
          → MayPass scope header d
      by_token true k h =
          let (t, e, p) = opened_key scope (bearer_token header) d h in
          key_MayPass scope header t d e k p
      by_token false k h =
          jwt_MayPass scope header (after_prefix (codes "Bearer ") header) d refl k h
