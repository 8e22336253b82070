-- ===== src/Handler/Login/Laws.antt =====
-- Where a sign-in may lead.
-- An entry of the list is the host.
use mathlib.Core.Path.{ap₂}
use cargohold.Domain.Redirect.{AllowedRedirectUris}
use cargohold.Domain.Repository.{RepositoryIdentifier, new_repository_identifier}
use cargohold.Domain.Shell.{ShellType, parse_shell_type}
use cargohold.Exec.{Result, err, ok}
use cargohold.Exec.Keeps.{Result-cases}
use cargohold.Handler.Http.{Reply, answered}
use cargohold.Handler.Login.{
  LoginConfig, LoginRequest, Redirection, forwarded_scheme, handle_login, has_host, is_host_allowed,
  login_reply, login_repository, login_shell, redirect_uri_of, resolve_scheme, scheme_or,
}
use cargohold.Prelude.{
  Bool, Bool-cases, List, Option, [], ap, false, inl, inr, none, refl, some, some_inj, sym, true, ℕ,
  ◌++◌, ◌∙◌, ◌∷◌, ◌≡◌, ◌⊎◌,
}
use cargohold.Prelude.Text.{Text, codes, text_eq, text_eq_iff}
use cargohold.Usecase.Oauth.{OauthServices, start_authentication}
use cargohold.Usecase.Response.{refused}

has_host-split :
    (host : Text) (hosts : List Text)
    → has_host host hosts ≡ true
    → (before after : List Text) × (hosts ≡ before ++ (host ∷ after))
unfolding has_host
has_host-split host [] h = cc h
has_host-split host (a ∷ hosts) h = elim (Bool-cases (text_eq host a)) [
  | inl same ↦ ([], hosts, ap (λ (x : Text). x ∷ hosts) (sym ((text_eq_iff host a).0 same)))
  | inr differs ↦
      let (before, after, e) = has_host-split host hosts (rw differs at h) in
      (a ∷ before, after, ap (λ (l : List Text). a ∷ l) e)
]

-- No host is named by the configuration, or this one is.
abbrev pub IsKnownHost : Text → List Text → Type 0
IsKnownHost host hosts =
    (hosts ≡ []) ⊎ ((before after : List Text) × (hosts ≡ before ++ (host ∷ after)))

is_host_allowed-IsKnownHost :
    (host : Text) (hosts : List Text) → is_host_allowed host hosts ≡ true → IsKnownHost host hosts
unfolding is_host_allowed
is_host_allowed-IsKnownHost host [] h = inl refl
is_host_allowed-IsKnownHost host (a ∷ hosts) h = elim (Bool-cases (text_eq host [])) [
  | inl unnamed ↦ cc (rw unnamed at h)
  | inr named ↦ inr (has_host-split host (a ∷ hosts) (rw named at h))
]

module _ (to_lower : Text → Text) where
  abbrev pub IsScheme : Text → Type 0
  IsScheme scheme = (scheme ≡ codes "http") ⊎ (scheme ≡ codes "https")

  forwarded_scheme-IsScheme :
      (forwarded scheme : Text)
      → forwarded_scheme to_lower forwarded ≡ some scheme
      → IsScheme scheme
  unfolding forwarded_scheme
  forwarded_scheme-IsScheme forwarded scheme h =
      elim (Bool-cases (text_eq forwarded (codes "http"))) [
        | inl plain_http ↦ inl (
            sym (some_inj (rw plain_http at h))
            ∙ (text_eq_iff forwarded (codes "http")).0 plain_http)
        | inr differs ↦ elim (Bool-cases (text_eq forwarded (codes "https"))) [
          | inl secure ↦ inr (
              sym (some_inj (rw (differs, secure) at h))
              ∙ (text_eq_iff forwarded (codes "https")).0 secure)
          | inr neither ↦ cc (rw (differs, neither) at h)
        ]
      ]

  scheme_or-IsScheme :
      (tls : Bool) (o : Option Text)
      → ((scheme : Text) → o ≡ some scheme → IsScheme scheme)
      → IsScheme (scheme_or to_lower tls o)
  unfolding scheme_or
  scheme_or-IsScheme tls (some scheme) h = h scheme refl
  scheme_or-IsScheme true none h = inr refl
  scheme_or-IsScheme false none h = inl refl

  -- Whatever the header says, the scheme is one of the two.
  resolve_scheme-IsScheme :
      (c : LoginRequest) (trust_proxy : Bool) → IsScheme (resolve_scheme to_lower c trust_proxy)
  unfolding resolve_scheme
  resolve_scheme-IsScheme c true =
      scheme_or-IsScheme c.tls (forwarded_scheme to_lower (to_lower c.forwarded_proto))
        (forwarded_scheme-IsScheme (to_lower c.forwarded_proto))
  resolve_scheme-IsScheme c false = scheme_or-IsScheme c.tls none (λ scheme h. cc h)

  module _ {W : Type 0} (s : OauthServices W) (allowed : AllowedRedirectUris)
      (cfg : LoginConfig) where
    pub record IsSentOn (c : LoginRequest) (r : Redirection) (w w' : W) : Type 0 where
      pub known_host : IsKnownHost c.host cfg.allowed_hosts
      pub repository : RepositoryIdentifier
      pub parsed : new_repository_identifier c.repository ≡ ok repository
      pub shell : ShellType
      pub shell_parsed : parse_shell_type c.shell ≡ ok shell
      pub scheme : Text
      pub is_scheme : IsScheme scheme
      pub no_cookie : r.cookie ≡ none
      pub started :
          start_authentication s allowed
            (some repository)
            (scheme ++ (codes "://" ++ (c.host ++ codes "/auth/github/callback")))
            shell
            w
          ≡ (ok r.location, w')

    abbrev location_of : Reply Redirection → Text
    location_of (answered status r) = r.location
    location_of _ = []

    abbrev cookie_of : Reply Redirection → Option Text
    cookie_of (answered status r) = r.cookie
    cookie_of _ = none

    abbrev status_in : Reply Redirection → ℕ
    status_in (answered status r) = status
    status_in _ = 0

    login_reply-answered :
        (p : Result Text × W) (status : ℕ) (r : Redirection) (w' : W)
        → login_reply to_lower s allowed cfg p ≡ (answered status r, w')
        → (status ≡ 302) × (r.cookie ≡ none) × (p ≡ (ok r.location, w'))
    unfolding login_reply
    login_reply-answered (err e, v) status r w' h = cc (ap (λ (z : Reply Redirection × W). z.0) h)
    login_reply-answered (ok auth_url, v) status r w' h =
        let reply = ap (λ (z : Reply Redirection × W). z.0) h in
        (
          sym (ap status_in reply),
          sym (ap cookie_of reply),
          ap₂ (λ (t : Text) u. (ok t, u)) (ap location_of reply)
              (ap (λ (z : Reply Redirection × W). z.1) h),
        )

    login_shell-IsSentOn :
        (c : LoginRequest) (repository : RepositoryIdentifier) (q : Result ShellType) (status : ℕ)
        (r : Redirection) (w w' : W)
        → IsKnownHost c.host cfg.allowed_hosts
        → new_repository_identifier c.repository ≡ ok repository
        → parse_shell_type c.shell ≡ q
        → login_shell to_lower s allowed cfg c repository q w ≡ (answered status r, w')
        → (status ≡ 302) × IsSentOn c r w w'
    unfolding login_shell redirect_uri_of
    login_shell-IsSentOn c repository (err e) status r w w' known parsed is h =
        cc (ap (λ (z : Reply Redirection × W). z.0) h)
    login_shell-IsSentOn c repository (ok shell) status r w w' known parsed is h =
        let uri = redirect_uri_of to_lower c cfg.trust_proxy in
        let (fine, bare, started) =
          login_reply-answered (start_authentication s allowed (some repository) uri shell w) status
            r w' h in
        (
          fine,
          record {
            known_host = known;
            repository = repository;
            parsed = parsed;
            shell = shell;
            shell_parsed = is;
            scheme = resolve_scheme to_lower c cfg.trust_proxy;
            is_scheme = resolve_scheme-IsScheme c cfg.trust_proxy;
            no_cookie = bare;
            started = started;
          },
        )

    -- A sign-in is sent on to GitHub, with status 302 and no cookie, only for a host that the
    -- configuration names where it names any, for a repository and a shell that were parsed; and it
    -- was started with the callback of this host as its redirect URI, by http or https.
    pub handle_login-IsSentOn :
        (c : LoginRequest) (status : ℕ) (r : Redirection) (w w' : W)
        → handle_login to_lower s allowed cfg c w ≡ (answered status r, w')
        → (status ≡ 302) × IsSentOn c r w w'
    unfolding handle_login login_repository
    handle_login-IsSentOn c status r w w' h =
        elim (Bool-cases (is_host_allowed c.host cfg.allowed_hosts)) [
          | inr refused ↦ cc (ap (λ (z : Reply Redirection × W). z.0) (rw refused at h))
          | inl known ↦ elim (Bool-cases (text_eq c.repository [])) [
            | inl absent ↦ cc (ap (λ (z : Reply Redirection × W). z.0) (rw (known, absent) at h))
            | inr present ↦ elim (Result-cases (new_repository_identifier c.repository)) [
              | inr (e, wrong) ↦
                  cc (ap (λ (z : Reply Redirection × W). z.0) (rw (known, present, wrong) at h))
              | inl (repository, parsed) ↦
                  login_shell-IsSentOn c repository (parse_shell_type c.shell) status r w w'
                    (is_host_allowed-IsKnownHost c.host cfg.allowed_hosts known) parsed refl
                    (rw (known, present, parsed) at h)
            ]
          ]
        ]
