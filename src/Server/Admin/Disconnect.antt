-- ===== src/Server/Admin/Disconnect.antt =====
-- Who may disconnect a tunnel.
use gatelet.Prelude.{
  ℕ, ◌≡◌, refl, sym, ap, ◌∙◌, subst, ◌≢◌, ◌⊎◌, inl, inr, Bool, true, false, ◌&&◌, Option, some, [],
  ◌∷◌, ◌++◌, arith, ◌==◌, nat_eq, Bool-cases, Option-cases, lookup, ok, Bytes, codes, bytes_beq_iff,
  bytes_eq, is_empty, starts_with, Result-cases,
}
use gatelet.Protocol.Hello.{HttpBasicAuthConfig}
use gatelet.Protocol.Name.{validate_name, IsLabel, validate_name-IsLabel}
use gatelet.Server.Names.{Settings}
use gatelet.Server.Registry.{Registry, http_tunnel, disconnect_tunnel}
use gatelet.Server.Admin.{
  AdminRequest, AdminResponse, dashboard, valid_admin_action_token, tunnels_prefix,
  disconnect_suffix, has_tail, tunnel_segment, handle_admin_disconnect, serve_admin,
}

-- The action token of the relay, in the header or, without one there, in the form; it is never empty.
abbrev pub GivesToken : Settings → AdminRequest → Type 0
GivesToken s r =
    ((r.token_header ≡ s.admin_action_token) × (r.token_header ≢ []))
    ⊎ ((r.token_header ≡ [])
        × (r.form_csrf ≡ some s.admin_action_token)
        × (s.admin_action_token ≢ []))

both_true : (a b : Bool) → (a && b) ≡ true → (a ≡ true) × (b ≡ true)
both_true true b e = (refl, e)
both_true false b e = absurd (cc)

emptiness : (s : Bytes) → ((s ≡ []) × (is_empty s ≡ true)) ⊎ ((s ≢ []) × (is_empty s ≡ false))
emptiness [] = inl (refl, refl)
emptiness (c ∷ s) = inr (λ e. cc, refl)

valid_admin_action_token_sound :
    (s : Settings) (r : AdminRequest) → valid_admin_action_token s r ≡ true → GivesToken s r
unfolding valid_admin_action_token
valid_admin_action_token_sound s r e = elim (emptiness r.token_header) [
  | inr (given, f) ↦ inl (
    (bytes_beq_iff r.token_header s.admin_action_token).0 (rw (f, valid_admin_action_token) at e),
    given,
  )
  | inl (missing, f) ↦ elim (Option-cases r.form_csrf) [
    | inl g ↦ absurd (ground (arith, f, g))
    | inr (token, g) ↦ elim (emptiness token) [
      | inl (blank, h) ↦ absurd (ground (arith, f, g, h))
      | inr (given, h) ↦
          let same : token ≡ s.admin_action_token =
            (bytes_beq_iff token s.admin_action_token).0
              (rw (f, g, h, valid_admin_action_token) at e) in
          inr (missing, g ∙ ap some same, subst (λ (t : Bytes). t ≢ []) same given)
    ]
  ]
]

abbrev disconnected : Bytes → AdminResponse
disconnected name = dashboard (codes "Disconnected tunnel " ++ name)

-- The grounds for closing a session.
pub record IsDisconnect (unescape : Bytes → Option Bytes) (s : Settings) (closed : ℕ → Bool)
    (g : Registry) (r : AdminRequest) (session : ℕ) (response : AdminResponse) : Type 0 where
  pub name : Bytes
  pub auth : Option HttpBasicAuthConfig
  pub proved : GivesToken s r
  pub named : unescape (tunnel_segment r.path) ≡ some name
  pub label : IsLabel name
  pub live : http_tunnel closed g name ≡ some (session, auth)
  pub told : response ≡ disconnected name

disconnect_tunnel_live :
    (closed : ℕ → Bool) (g : Registry) (name : Bytes) (session : ℕ)
    → disconnect_tunnel closed g name ≡ some session
    → (auth : Option HttpBasicAuthConfig) × (http_tunnel closed g name ≡ some (session, auth))
unfolding disconnect_tunnel http_tunnel
disconnect_tunnel_live closed g name session e = elim (Option-cases (lookup name g.sessions)) [
  | inl f ↦ absurd (ground (arith, f))
  | inr (t, f) ↦ (t.http_basic_auth, ground (arith, f))
]

module _ (unescape : Bytes → Option Bytes) (s : Settings) (closed : ℕ → Bool) (g : Registry)
    (r : AdminRequest) (session : ℕ) where
  disconnected_by :
      valid_admin_action_token s r ≡ true
      → (name : Bytes) → unescape (tunnel_segment r.path) ≡ some name
      → validate_name name ≡ ok tt
      → (x : ℕ) → disconnect_tunnel closed g name ≡ some x
      → (handle_admin_disconnect unescape s closed g r).1 ≡ some session
      → IsDisconnect unescape s closed g r session (handle_admin_disconnect unescape s closed g r).0
  unfolding handle_admin_disconnect
  disconnected_by proved name f h x k e =
      let full : handle_admin_disconnect unescape s closed g r ≡ (disconnected name, some x) =
        ground (arith, proved, f, h, k) in
      let (auth, live) =
        disconnect_tunnel_live closed g name session (k ∙ sym (ap (λ p. p.1) full) ∙ e) in
      record {
        name = name;
        auth = auth;
        proved = valid_admin_action_token_sound s r proved;
        named = f;
        label = (validate_name-IsLabel name).0 h;
        live = live;
        told = ap (λ p. p.0) full;
      }

  handle_admin_disconnect_sound :
      (handle_admin_disconnect unescape s closed g r).1 ≡ some session
      → IsDisconnect unescape s closed g r session (handle_admin_disconnect unescape s closed g r).0
  unfolding handle_admin_disconnect
  handle_admin_disconnect_sound e = elim (Bool-cases (valid_admin_action_token s r)) [
    | inr bad ↦ absurd (ground (arith, bad))
    | inl proved ↦ elim (Option-cases (unescape (tunnel_segment r.path))) [
      | inl f ↦ absurd (ground (arith, proved, f))
      | inr (name, f) ↦ elim (Result-cases (validate_name name)) [
        | inr (bad, h) ↦ absurd (ground (arith, proved, f, h))
        | inl (done, h) ↦ elim (Option-cases (disconnect_tunnel closed g name)) [
          | inl k ↦ absurd (ground (arith, proved, f, h, k))
          | inr (x, k) ↦ disconnected_by proved name f (ground (arith, h)) x k e
        ]
      ]
    ]
  ]

  -- The admin interface closes a session only for a POST that gives the relay's action token and names, in
  -- its path, a valid name whose open session it is; and it says so.
  pub serve_admin-IsDisconnect :
      (read_file : Bytes → Option Bytes)
      → (serve_admin unescape read_file s closed g r).1 ≡ some session
      → (r.method ≡ codes "POST")
        × IsDisconnect unescape s closed g r session (serve_admin unescape read_file s closed g r).0
  unfolding serve_admin
  serve_admin-IsDisconnect read_file e =
      elim (Bool-cases (
        r.method == codes "POST"
        && (starts_with tunnels_prefix r.path && has_tail disconnect_suffix r.path))) [
          | inr other ↦ absurd (ground (arith, other))
          | inl post ↦
              let (posted, on_path) = both_true (r.method == codes "POST") _ post in
              let (under, behind) =
                both_true (starts_with tunnels_prefix r.path) (has_tail disconnect_suffix r.path)
                  on_path in
              let method : r.method ≡ codes "POST" =
                (bytes_beq_iff r.method (codes "POST")).0 posted in
              let no_get : (r.method == codes "GET") ≡ false = rw method refl in
              let routed : serve_admin unescape read_file s closed g r
                  ≡ handle_admin_disconnect unescape s closed g r =
                rw (no_get, posted, under, behind, serve_admin) refl in
              (
                method,
                subst (IsDisconnect unescape s closed g r session) (sym (ap (λ p. p.0) routed))
                    (handle_admin_disconnect_sound (sym (ap (λ p. p.1) routed) ∙ e)),
              )
        ]
