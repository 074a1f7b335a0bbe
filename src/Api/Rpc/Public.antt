-- ===== src/Api/Rpc/Public.antt =====
-- rpc_handler.go with the methods that api.go registers: what a caller without a token can reach.
use message_boy.Base.{
  ◌≡◌, inl, inr, refl, sym, ap, ◌∙◌, arith, Bool, true, false, not, ◌||◌, Bool-cases, List, [], ◌∷◌,
  Option, none, some, Bytes, codes, All, bytes_eq, lookup, lookup-insert, str_eq, str_eq_iff,
}
use message_boy.Api.{Reply}
use message_boy.Api.Rpc.{
  RpcRequest, RpcMethod, RpcHandler, register, is_authenticated, handle, method_table,
  register_methods,
}
use message_boy.Api.Rpc.Guarding.{IsTurnedAway, handle_guarded}

-- The methods for the clients, the login and the ping.
abbrev pub is_public : Bytes → Bool
is_public name =
    str_eq name (codes "ping")
    || (str_eq name (codes "adminLogin")
        || (str_eq name (codes "clientRegister")
            || (str_eq name (codes "clientHeartbeat")
                || (str_eq name (codes "clientGetRules")
                    || (str_eq name (codes "clientReportTraffic")
                        || str_eq name (codes "clientReportRuleStatus"))))))

-- A row of the table says of its name what `is_public` does.
abbrev Agrees : Bytes × Bool → Type 0
Agrees e = e.1 ≡ not (is_public e.0)

method_table-Agrees : All Agrees method_table
unfolding str_eq
method_table-Agrees = ground arith

-- What is registered agrees with the table, over a handler that does.
abbrev HandlerAgrees : {S P R : Type 0} → RpcHandler S P R → Type 0
HandlerAgrees {S = S} {P = P} {R = R} h =
    (name : Bytes) (m : RpcMethod S P R)
    → lookup name h ≡ some m
    → m.require_auth ≡ not (is_public name)

module _ {S P R : Type 0} (bodies : Bytes → P → S → S × Reply R) where
  register-HandlerAgrees :
      (name : Bytes) (auth : Bool) (h : RpcHandler S P R)
      → auth ≡ not (is_public name)
      → HandlerAgrees h
      → HandlerAgrees
          (register (record { name = name; require_auth = auth; execute = bodies name }) h)
  unfolding register
  register-HandlerAgrees name auth h agree hh k m e =
      let new : RpcMethod S P R = record {
        name = name;
        require_auth = auth;
        execute = bodies name;
      } in
      elim (Bool-cases (str_eq name k)) [
        | inl same ↦
            let found : some new ≡ some m = sym (lookup-insert name k new h ∙ rw same refl) ∙ e in
            let eq : new ≡ m = cc in
            ap (λ (x : RpcMethod S P R). x.require_auth) (sym eq)
            ∙ agree
            ∙ ap (λ n. not (is_public n)) ((str_eq_iff name k).0 same)
        | inr other ↦ hh k m (sym (lookup-insert name k new h ∙ rw other refl) ∙ e)
      ]

  register_methods-HandlerAgrees :
      (table : List (Bytes × Bool)) (h : RpcHandler S P R)
      → All Agrees table
      → HandlerAgrees h
      → HandlerAgrees (register_methods bodies table h)
  unfolding register_methods
  register_methods-HandlerAgrees [] h agree hh = hh
  register_methods-HandlerAgrees ((name, auth) ∷ table) h agree hh =
      register_methods-HandlerAgrees table _ agree.1 (register-HandlerAgrees name auth h agree.0 hh)

  -- Without a valid token a call of any other method than the seven public ones changes nothing and
  -- is answered with an error, whatever the methods do.
  pub handle_public :
      (validate : Bytes → Option Bytes) (header : Bytes) (req : RpcRequest P) (s : S)
      → is_authenticated validate header ≡ none
      → is_public req.method ≡ false
      → IsTurnedAway validate
          (register_methods bodies method_table [])
          header
          s
          (handle validate (register_methods bodies method_table []) header (some req) s)
  unfolding lookup
  handle_public validate header req s anonymous private =
      elim (handle_guarded validate (register_methods bodies method_table []) header req s) [
        | inl away ↦ away
        | inr (m, known, right, e) ↦
            let needed : m.require_auth ≡ true =
              register_methods-HandlerAgrees method_table [] method_table-Agrees
                (λ k n h. absurd (cc)) req.method m known
              ∙ ap not private in
            elim right [ inl free ↦ absurd (cc) | inr (user, valid) ↦ absurd (cc) ]
      ]
