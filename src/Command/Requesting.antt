-- ===== src/Command/Requesting.antt =====
-- main.go: the request command, and main, which calls the commands.
pub mod Sent
use secretproxy.Prelude.{
  ℕ, Bool, true, false, Option, none, some, List, [], ◌∷◌, ◌++◌, if◌then◌else◌, is_empty, Result,
  ok, err, wrap, refuse_if, ◌>>=◌, ◌>>◌,
}
use secretproxy.Text.{Str, codes, str_eq}
use secretproxy.Client.{
  Transport, Outgoing, ClientError, ClientOption, with_sealed_secret, with_auth, with_proxy_tls,
  new_transport,
}
use secretproxy.Command.{System}

pub record RequestFlags : Type 0 where
  pub proxy_url : Str
  pub url : Str
  pub method : Str
  pub body : Str
  pub proxy_insecure : Bool

-- The status line of the answer, and its body, where `none` is a read that failed.
pub record Response : Type 0 where
  pub status : Str
  pub body : Option Str

-- http.NewRequest, and http.Client.Do over a transport, which follows redirects.
pub record HttpClient : Type 0 where
  pub new_request : (method url body : Str) → Option Outgoing
  pub do_request : Transport → Outgoing → Option Response

pub data RequestError : Type 0 where
  url_required bad_request request_failed body_failed : RequestError
  no_transport : ClientError → RequestError

abbrev pub request_options : System → RequestFlags → List ClientOption
request_options os f =
    with_sealed_secret (os.getenv (codes "SEALED_SECRET"))
    ∷ with_auth (os.getenv (codes "AUTH_TOKEN"))
    ∷ (if f.proxy_insecure then with_proxy_tls true ∷ [] else [])

abbrev given {ℓ} : {A : Type ℓ} → RequestError → Option A → Result RequestError A
given e none = err e
given e (some a) = ok a

abbrev shown : Response → Result RequestError (List Str)
shown r = elim r.body [
  | none ↦ err body_failed
  | some text ↦ ok ((codes "status: " ++ r.status) ∷ text ∷ [])
]

-- The status line and the body that are printed.
unfoldable pub run_request : System → HttpClient → RequestFlags → Result RequestError (List Str)
run_request os c f = do
  refuse_if (is_empty f.url) url_required
  rt ← wrap no_transport (new_transport os.parse_url f.proxy_url (request_options os f))
  req ← given bad_request (c.new_request f.method f.url f.body)
  resp ← given request_failed (c.do_request rt req)
  shown resp

-- main: what the process ends with. A command is run by its name and says whether it returned an error.
pub data Command : Type 0 where
  serve seal unseal request gen_tls_cert gen_keypair : Command

pub data Chosen : Type 0 where
  runs : Command → Chosen
  help unknown : Chosen

unfoldable pub chosen : Str → Chosen
chosen cmd =
    if str_eq cmd (codes "serve")
    then runs serve
    else if str_eq cmd (codes "seal")
    then runs seal
    else if str_eq cmd (codes "unseal")
    then runs unseal
    else if str_eq cmd (codes "request")
    then runs request
    else if str_eq cmd (codes "gen-tls-cert")
    then runs gen_tls_cert
    else if str_eq cmd (codes "gen-keypair")
    then runs gen_keypair
    else if str_eq cmd (codes "-h")
    then help
    else if str_eq cmd (codes "--help")
    then help
    else if str_eq cmd (codes "help")
    then help
    else unknown

abbrev exit_of : Chosen → (Command → List Str → Bool) → List Str → ℕ
exit_of (runs c) fails args = if fails c args then 1 else 0
exit_of help fails args = 0
exit_of unknown fails args = 2

-- The arguments behind the program's name.
unfoldable pub exit_status : (fails : Command → List Str → Bool) → List Str → ℕ
exit_status fails [] = 2
exit_status fails (cmd ∷ args) = exit_of (chosen cmd) fails args
