-- ===== src/Proxy/Serve.antt =====
-- proxy.go: serve and handlePublicKey, the routes of the server.
pub mod Routes
use secretproxy.Prelude.{
  ℕ, zero, suc, ◌+◌, ◌-◌, ◌*◌, ◌/◌, ◌%◌, ◌^◌, ◌≤◌, ◌<◌, code, String, ◌≡◌, refl, sym, ap, ◌∙◌,
  ◌≡⟨◌⟩◌, ◌∎, ◌≢◌, ◌↔◌, ◌⊎◌, inl, inr, Bool, true, false, not, ◌&&◌, ◌||◌, Option, none, some, List,
  [], ◌∷◌, ◌++◌, append-nil, append_assoc, arith, ltb, leb, ◌==◌, if◌then◌else◌, ==_iff, Bool-cases,
  Option-cases, &&-eq-true, length, get_elem?, is_empty, length-append, any, all, last_or, All, Any,
  All-append, last_or-append, Result, ok, err, Check, ◌>>=◌, ◌>>◌, refuse_if, wrap, >>=-eq-ok,
  Result-cases, Ensures, Ensures->>=, Ensures-ok,
}
use secretproxy.Text.{Str, Unicode, str_eq}
use secretproxy.Seal.Keys.{public_hex}
use secretproxy.Proxy.Server.{Server, forward_path, public_key_path, health_path, ready_path}
use secretproxy.Proxy.Forward.{World, Request, Rejection, Forwarded, handle_forward}

pub data Answer : Type 0 where
  public_key_text : Str → Answer
  healthy : Answer
  forwarded : Result Rejection Forwarded → Answer
  not_found : Answer

unfoldable pub handle_public_key : World → Server → Answer
handle_public_key w s = public_key_text (public_hex (w.lib.crypto.public_of s.private_key))

unfoldable pub serve : ⦃u : Unicode⦄ → World → Server → Str → Request → Answer
serve w s path r =
    if str_eq path public_key_path
    then handle_public_key w s
    else if str_eq path health_path || str_eq path ready_path
    then healthy
    else if str_eq path forward_path
    then forwarded (handle_forward w s r)
    else not_found
