-- ===== src/Api/Rpc/Guarding.antt =====
-- rpc_handler.go and auth.go: which calls reach a method.
use mathlib.Core.Path.{subst}
use message_boy.Base.{
  ◌≡◌, ◌⊎◌, inl, inr, refl, sym, arith, false, ◌||◌, Bool-cases, Option-cases, Option, none, some,
  Bytes, ltb, length, take, drop_all, ltb→le, [], bytes_eq, lookup, str_eq, str_eq_iff, is_empty,
}
use message_boy.Api.{ApiError, reply}
use message_boy.Api.Rpc.{
  ErrCode, RpcRequest, RpcResponse, error, RpcMethod, RpcHandler, json_rpc_version, bearer_prefix,
  token_of, is_authenticated, auth_middleware, executed, run_method, handle, admin_login,
}

module _ {S P R : Type 0} (validate : Bytes → Option Bytes) (h : RpcHandler S P R)
    (header : Bytes) where
  -- The call was answered by the handler alone.
  abbrev pub IsTurnedAway : S → S × RpcResponse R → Type 0
  IsTurnedAway s x =
      (x.0 ≡ s) × ((id : Bytes) × (code : ErrCode) × (e : ApiError) × (x.1 ≡ error id code e))

  -- The call was answered by the method of its name, to which the caller has a right.
  abbrev pub IsExecuted : RpcRequest P → S → S × RpcResponse R → Type 0
  IsExecuted req s x =
      (m : RpcMethod S P R) × (lookup req.method h ≡ some m)
      × ((m.require_auth ≡ false)
          ⊎ ((user : Bytes) × (is_authenticated validate header ≡ some user)))
      × (x ≡ executed req.id (m.execute req.params s))

  run_method-guarded :
      (req : RpcRequest P) (m : RpcMethod S P R) (s : S)
      → lookup req.method h ≡ some m
      → IsTurnedAway s (run_method validate header req m s)
        ⊎ IsExecuted req s (run_method validate header req m s)
  unfolding run_method
  run_method-guarded req m s known = elim (Bool-cases m.require_auth) [
    | inr public ↦ inr (m, known, inl public, rw public refl)
    | inl private ↦ elim (Option-cases (is_authenticated validate header)) [
      | inl anonymous ↦
          inl (rw (private, anonymous, run_method) (refl, (req.id, ErrCode.auth_required, _, refl)))
      | inr (user, e) ↦ inr (m, known, inr (user, e), rw (private, e, run_method) refl)
    ]
  ]

  -- A call changes nothing and is answered with an error, or it is answered by the method that is
  -- registered under its name; and a method that needs a user is run only with a valid token.
  pub handle_guarded :
      (req : RpcRequest P) (s : S)
      → IsTurnedAway s (handle validate h header (some req) s)
        ⊎ IsExecuted req s (handle validate h header (some req) s)
  unfolding handle
  handle_guarded req s = elim (Bool-cases (str_eq req.json_rpc json_rpc_version)) [
    | inr old ↦ inl (rw old (refl, (req.id, ErrCode.invalid_request, _, refl)))
    | inl current ↦ elim (Bool-cases (is_empty req.method)) [
      | inl blank ↦ inl (rw (current, blank) (refl, (req.id, ErrCode.invalid_request, _, refl)))
      | inr named ↦ elim (Option-cases (lookup req.method h)) [
        | inl unknown ↦
            inl (rw (current, named, unknown) (refl, (req.id, ErrCode.method_not_found, _, refl)))
        | inr (m, known) ↦
            let same : handle validate h header (some req) s ≡ run_method validate header req m s =
              rw (current, named, known) refl in
            subst (λ x. IsTurnedAway s x ⊎ IsExecuted req s x) (sym same)
              (run_method-guarded req m s known)
      ]
    ]
  ]

-- Whom the middleware lets through, the handler takes for the same user, provided that the empty
-- token is not valid. (The handler also takes a token without the prefix.)
pub is_authenticated-auth_middleware :
    (validate : Bytes → Option Bytes) (header user : Bytes)
    → validate [] ≡ none
    → auth_middleware validate header ≡ some user
    → is_authenticated validate header ≡ some user
unfolding auth_middleware is_authenticated token_of
is_authenticated-auth_middleware validate header user strict e =
    elim (Bool-cases (is_empty header)) [
      | inl blank ↦ absurd (ground arith)
      | inr sent ↦ elim (Bool-cases (str_eq (take 7 header) bearer_prefix)) [
        | inr bare ↦ absurd (ground arith)
        | inl bearer ↦ elim (Bool-cases (ltb 7 (length header))) [
          | inl long ↦ ground arith
          | inr short ↦
              let blank = drop_all 7 header (ltb→le 7 (length header) short) in
              absurd (ground arith)
        ]
      ]
    ]

-- `adminLogin` answers with a token only for the configured name and password, and then with the
-- token that is made for the name.
pub admin_login_lem :
    {T : Type 0} (user password u p : Bytes) (generate : Bytes → Option T) (token : T)
    → admin_login (user, password) generate (some (u, p)) ≡ reply token
    → (u ≡ user) × (p ≡ password) × (generate user ≡ some token)
unfolding admin_login
admin_login_lem user password u p generate token e = elim (Bool-cases (is_empty u || is_empty p)) [
  | inl blank ↦ absurd (ground arith)
  | inr sent ↦ elim (Bool-cases (str_eq u user)) [
    | inr other ↦ absurd (ground arith)
    | inl name ↦ elim (Bool-cases (str_eq p password)) [
      | inr other ↦ absurd (ground arith)
      | inl word ↦
          let same = (str_eq_iff u user).0 name in
          (same, (str_eq_iff p password).0 word, ground arith)
    ]
  ]
]
