-- ===== src/Tests/Dialling.antt =====
-- The addresses that the transport dials for the sample target and for an address in brackets.
use secretproxy.Prelude.{none, false, ◌≢◌, [], ◌≡◌, refl, arith, ok}
use secretproxy.Text.{
  codes, lower_ascii, lower_byte, to_lower, contains_byte, count_byte, has_prefix,
}
use secretproxy.Net.{has_bracket, split_host_port, cut_last}
use secretproxy.Proxy.Server.{Url}
use secretproxy.Proxy.Policy.{upstream_port, reject_non_standard_port, strip_port}
use secretproxy.Proxy.Director.{target_of}
use secretproxy.Proxy.Dialled.{Idna, idna_host, dialled}
use secretproxy.Proxy.Dialled.Ports.{unbracketed_dialled, bracketed_dialled}
use secretproxy.Tests.Samples.{plain, charge_url}

-- No host has a form in ASCII.
instance abbrev no_idna : Idna
no_idna = record { to_ascii = λ host. none }

charge_accepted : reject_non_standard_port charge_url.host ≡ ok tt
unfolding reject_non_standard_port split_host_port cut_last contains_byte count_byte
charge_accepted = refl

charge_unbracketed : has_prefix charge_url.host (codes "[") ≡ false
unfolding has_prefix
charge_unbracketed = refl

unbracketed_dialled_example :
    dialled (target_of charge_url)
    ≡ (idna_host (to_lower (strip_port charge_url.host)), upstream_port)
unbracketed_dialled_example =
    unbracketed_dialled charge_url (λ s h. h) (λ s h. h) charge_accepted charge_unbracketed

-- The address 2001:db8::5:8080 on port 443.
abbrev address_url : Url
address_url = record charge_url { host = codes "[2001:db8::5:8080]:443" }

bracket_free : has_bracket (codes "2001:db8::5") ≡ false
unfolding contains_byte
bracket_free = refl

digits_given : codes "8080" ≢ []
digits_given h = ground arith

bracketed_dialled_example :
    (reject_non_standard_port address_url.host ≡ ok tt)
    × (dialled (target_of address_url) ≡ (codes "2001:db8::5", codes "8080"))
unfolding lower_ascii lower_byte
bracketed_dialled_example =
    bracketed_dialled address_url (codes "2001:db8::5") (codes "8080") refl refl bracket_free refl
      digits_given
