-- ===== src/Client/Dial/Dialled.antt =====
-- Which connection `dialControl` gives, and which ones it leaves open.
use gatelet.Prelude.{
  ℕ, ◌≡◌, ℤ, pos, plusℤ, minusℤ, refl, sym, ap, subst, inl, inr, true, false, not, Option, none,
  some, List, [], ◌∷◌, arith, Bool-cases, Option-cases, Result, ok, err, ◌>>=◌, fail_if, or_fail,
  Result-cases, Bytes, codes, ◌++◌, is_empty, starts_with,
}
use gatelet.Client.Dial.{
  DialConfig, TlsConfig, Network, ControlConn, plain, secured, web_socket, DialEffect, conn_opened,
  conn_closed, is_web_socket_control_addr, wss_prefix, web_socket_control_url, pool_of, root_cas_of,
  server_name_of, control_tls_config, web_socket_options, dial_web_socket_control, secure_conn,
  dial_control, tls_advice,
}

-- How many TCP connections are open after the effects.
abbrev pub still_open : List DialEffect → ℤ
still_open [] = pos 0
still_open (conn_opened ∷ es) = plusℤ (still_open es) 1
still_open (conn_closed ∷ es) = minusℤ (still_open es) 1

abbrev pub held : Result Bytes ControlConn → ℕ
held (ok plain) = 1
held (ok (secured t)) = 1
held (ok (web_socket control_url options)) = 0
held (err e) = 0

-- What an error of the TLS handshake advises.
abbrev plaintext_advice : Bytes
plaintext_advice =
    codes
      "; if the control listener is plaintext, retry with --control-plaintext or enable gateletd --control-tls-cert and --control-tls-key"

module _ (w : Network) (c : DialConfig) where
  -- The ways on which the options of TLS are made: behind a TCP connection, or for wss://.
  pub data WantsTls : Type 0 where
    over_tcp :
        is_web_socket_control_addr c.server_addr ≡ false
        → w.dials_tcp ≡ true
        → c.control_tls ≡ true
        → WantsTls
    over_wss :
        (control_url : Bytes)
        → starts_with wss_prefix c.server_addr ≡ true
        → web_socket_control_url w c.server_addr ≡ ok control_url
        → WantsTls

  -- The call on the way that failed, and the text of the error that it ends in.
  pub data Failure : Bytes → Type 0 where
    no_tcp :
        is_web_socket_control_addr c.server_addr ≡ false → w.dials_tcp ≡ false → Failure w.fault
    no_handshake :
        (t : TlsConfig)
        → is_web_socket_control_addr c.server_addr ≡ false
        → w.dials_tcp ≡ true
        → c.control_tls ≡ true
        → control_tls_config w c ≡ ok t
        → w.tls_handshakes ≡ false
        → Failure (codes "TLS handshake: " ++ (w.fault ++ plaintext_advice))
    no_file :
        WantsTls
        → is_empty c.control_ca_cert_file ≡ false
        → w.read_file c.control_ca_cert_file ≡ none
        → Failure (codes "read control CA file: " ++ w.fault)
    no_certs :
        (text : Bytes)
        → WantsTls
        → is_empty c.control_ca_cert_file ≡ false
        → w.read_file c.control_ca_cert_file ≡ some text
        → w.append_certs (pool_of w) text ≡ none
        → Failure (codes "control CA file has no certificates")
    no_url :
        is_web_socket_control_addr c.server_addr ≡ true
        → w.parse_url c.server_addr ≡ none
        → Failure w.fault
    no_web_socket :
        (control_url : Bytes) (options : Option TlsConfig)
        → is_web_socket_control_addr c.server_addr ≡ true
        → web_socket_control_url w c.server_addr ≡ ok control_url
        → web_socket_options w c ≡ ok options
        → w.dials_web_socket control_url options ≡ false
        → Failure w.fault

  -- What holds of a result: of its value, or that a call failed with the error.
  abbrev pub Holds : {A : Type 0} → (A → Type 0) → Result Bytes A → Type 0
  Holds P (ok a) = P a
  Holds P (err e) = Failure e

  -- A chain that binds `r`: the rest may use what holds of the value and the equation that gives it.
  Holds-then :
      {A B : Type 0} (P : A → Type 0) (Q : B → Type 0) (r : Result Bytes A)
      (next : A → Result Bytes B)
      → Holds P r
      → ((a : A) → r ≡ ok a → P a → Holds Q (next a))
      → Holds Q (r >>= next)
  Holds-then P Q (ok a) next p q = q a refl p
  Holds-then P Q (err e) next p q = p

  -- The certificates that are trusted: the configured ones, or the system's with those of the file.
  pub data Trusts : Option ℕ → Type 0 where
    trusts_configured : is_empty c.control_ca_cert_file ≡ true → Trusts c.control_root_cas
    trusts_file :
        (text : Bytes) (pool : ℕ)
        → w.read_file c.control_ca_cert_file ≡ some text
        → w.append_certs (pool_of w) text ≡ some pool
        → Trusts (some pool)

  pub record IsTls (t : TlsConfig) : Type 0 where
    pub modern : t.min_version ≡ 771
    pub trusted : Trusts t.root_cas
    pub named : t.server_name ≡ server_name_of w c
    pub verified : t.insecure_skip_verify ≡ c.control_insecure_skip_verify

  -- The connections that the configuration allows.
  pub data Fits : ControlConn → Type 0 where
    fits_plain :
        is_web_socket_control_addr c.server_addr ≡ false → c.control_tls ≡ false → Fits plain
    fits_secured :
        (t : TlsConfig)
        → is_web_socket_control_addr c.server_addr ≡ false
        → c.control_tls ≡ true
        → w.tls_handshakes ≡ true
        → IsTls t
        → Fits (secured t)
    fits_ws :
        (control_url : Bytes)
        → is_web_socket_control_addr c.server_addr ≡ true
        → starts_with wss_prefix c.server_addr ≡ false
        → web_socket_control_url w c.server_addr ≡ ok control_url
        → Fits (web_socket control_url none)
    fits_wss :
        (control_url : Bytes) (t : TlsConfig)
        → starts_with wss_prefix c.server_addr ≡ true
        → web_socket_control_url w c.server_addr ≡ ok control_url
        → IsTls t
        → Fits (web_socket control_url (some t))

  root_cas_of-Trusts : WantsTls → Holds Trusts (root_cas_of w c)
  unfolding root_cas_of
  root_cas_of-Trusts wants = elim (Bool-cases (is_empty c.control_ca_cert_file)) [
    | inl e ↦ rw e (trusts_configured e)
    | inr e ↦ elim (Option-cases (w.read_file c.control_ca_cert_file)) [
      | inl missing ↦ rw (e, missing) (no_file wants e missing)
      | inr (text, read) ↦ elim (Option-cases (w.append_certs (pool_of w) text)) [
        | inl useless ↦ rw (e, read, useless) (no_certs text wants e read useless)
        | inr (pool, parsed) ↦ rw (e, read, parsed) (trusts_file text pool read parsed)
      ]
    ]
  ]

  control_tls_config-IsTls : WantsTls → Holds IsTls (control_tls_config w c)
  unfolding control_tls_config
  control_tls_config-IsTls wants =
      Holds-then Trusts IsTls (root_cas_of w c) _ (root_cas_of-Trusts wants)
        λ pool _ trusted. record { modern = refl; trusted = trusted; named = refl; verified = refl }

  web_socket_options-Fits :
      is_web_socket_control_addr c.server_addr ≡ true
      → (control_url : Bytes) → web_socket_control_url w c.server_addr ≡ ok control_url
      → Holds (λ options. Fits (web_socket control_url options)) (web_socket_options w c)
  unfolding web_socket_options
  web_socket_options-Fits is_ws control_url made =
      elim (Bool-cases (starts_with wss_prefix c.server_addr)) [
        | inl e ↦ rw e (
            Holds-then IsTls (λ options. Fits (web_socket control_url options))
              (control_tls_config w c) _ (control_tls_config-IsTls (over_wss control_url e made))
              λ t _ is_tls. fits_wss control_url t e made is_tls)
        | inr e ↦ rw e (fits_ws control_url is_ws e made)
      ]

  or_fail-Holds :
      {A : Type 0} (o : Option A) (e : Bytes)
      → (o ≡ none → Failure e)
      → Holds (λ _. Unit {0}) (or_fail o e)
  or_fail-Holds none e failure = failure refl
  or_fail-Holds (some a) e failure = tt

  web_socket_control_url-Holds :
      is_web_socket_control_addr c.server_addr ≡ true
      → Holds (λ _. Unit {0}) (web_socket_control_url w c.server_addr)
  unfolding web_socket_control_url
  web_socket_control_url-Holds is_ws =
      Holds-then (λ _. Unit {0}) (λ _. Unit {0}) (or_fail (w.parse_url c.server_addr) w.fault) _
        (or_fail-Holds (w.parse_url c.server_addr) w.fault (no_url is_ws)) λ _ _ _. tt

  fail_if-Holds :
      (control_url : Bytes) (options : Option TlsConfig)
      → is_web_socket_control_addr c.server_addr ≡ true
      → web_socket_control_url w c.server_addr ≡ ok control_url
      → web_socket_options w c ≡ ok options
      → Holds (λ _. Unit {0}) (fail_if (not (w.dials_web_socket control_url options)) w.fault)
  fail_if-Holds control_url options is_ws made chosen =
      elim (Bool-cases (w.dials_web_socket control_url options)) [
        | inl good ↦ rw good tt
        | inr bad ↦ rw bad (no_web_socket control_url options is_ws made chosen bad)
      ]

  dial_web_socket_control-Fits :
      is_web_socket_control_addr c.server_addr ≡ true → Holds Fits (dial_web_socket_control w c)
  unfolding dial_web_socket_control
  dial_web_socket_control-Fits is_ws =
      Holds-then (λ _. Unit {0}) Fits (web_socket_control_url w c.server_addr) _
        (web_socket_control_url-Holds is_ws)
        λ control_url made _.
          Holds-then (λ options. Fits (web_socket control_url options)) Fits
            (web_socket_options w c) _ (web_socket_options-Fits is_ws control_url made)
            λ options chosen fits.
              Holds-then (λ _. Unit {0}) Fits
                (fail_if (not (w.dials_web_socket control_url options)) w.fault) _
                (fail_if-Holds control_url options is_ws made chosen) λ _ _ _. fits

  -- The TCP connections that are open behind the effects, and those that the result holds.
  pub record Dialled (out : Result Bytes ControlConn × List DialEffect) : Type 0 where
    pub fits : Holds Fits out.0
    pub held_open : still_open out.1 ≡ pos (held out.0)

  gives :
      (out made : Result Bytes ControlConn × List DialEffect)
      → out ≡ made
      → Dialled made
      → Dialled out
  gives out made e d = subst Dialled (sym e) d

  secure_conn-Dialled :
      is_web_socket_control_addr c.server_addr ≡ false
      → w.dials_tcp ≡ true
      → c.control_tls ≡ true
      → Dialled (secure_conn w c)
  unfolding secure_conn
  secure_conn-Dialled not_ws reached tls = elim (Result-cases (control_tls_config w c)) [
    | inr (e, failed) ↦
        gives (secure_conn w c) ((err e, conn_opened ∷ conn_closed ∷ []))
          (simp (failed, secure_conn))
          (record {
            fits =
                subst (Holds IsTls) failed (control_tls_config-IsTls (over_tcp not_ws reached tls));
            held_open = refl;
          })
    | inl (t, made) ↦
        let is_tls : IsTls t =
          subst (Holds IsTls) made (control_tls_config-IsTls (over_tcp not_ws reached tls)) in
        elim (Bool-cases w.tls_handshakes) [
          | inl e ↦
              gives (secure_conn w c) ((ok (secured t), conn_opened ∷ []))
                (simp (made, e, secure_conn))
                (record { fits = fits_secured t not_ws tls e is_tls; held_open = refl })
          | inr e ↦
              gives (secure_conn w c)
                ((
                  err (codes "TLS handshake: " ++ (w.fault ++ tls_advice)),
                  conn_opened ∷ conn_closed ∷ [],
                ))
                (simp (made, e, secure_conn))
                (record { fits = no_handshake t not_ws reached tls made e; held_open = refl })
        ]
  ]

  held-web_socket : held (dial_web_socket_control w c) ≡ 0
  unfolding dial_web_socket_control
  held-web_socket = ground arith

  -- Whatever the network answers, the dialling ends with a connection or with the error of a call on the way that
  -- failed, in the words of that call or, where the certificates or the TLS handshake fail, of the client, with the
  -- advice to use --control-plaintext behind a handshake. A connection that the client gets is of the kind that
  -- its options and the address ask for: over TLS 1.2 or later for wss:// and where TLS is on, with the
  -- configured trust, name and checks. Every TCP connection that was opened is the one it gets or is closed.
  pub dial_control-Dialled : Dialled (dial_control w c)
  unfolding dial_control
  dial_control-Dialled = elim (Bool-cases (is_web_socket_control_addr c.server_addr)) [
    | inl e ↦
        rw e (record {
          fits = dial_web_socket_control-Fits e;
          held_open = ap pos (sym held-web_socket);
        })
    | inr e ↦ elim (Bool-cases w.dials_tcp) [
      | inr refused ↦
          gives (dial_control w c) (err w.fault, []) (simp (e, refused, dial_control))
            (record { fits = no_tcp e refused; held_open = refl })
      | inl reached ↦ elim (Bool-cases c.control_tls) [
        | inr off ↦
            gives (dial_control w c) ((ok plain, conn_opened ∷ []))
              (simp (e, reached, off, dial_control))
              (record { fits = fits_plain e off; held_open = refl })
        | inl on ↦
            gives (dial_control w c) (secure_conn w c) (simp (e, reached, on, dial_control))
              (secure_conn-Dialled e reached on)
      ]
    ]
  ]
