-- ===== src/Tests/Upstreams.antt =====
-- The headers that the upstream sees of the sample request.
use secretproxy.Prelude.{◌≡◌, refl, none, some, [], ◌∷◌}
use secretproxy.Text.{
  codes, str_eq, split, trim_left, trim_right, lower_byte, contains_byte, cut, count_byte,
}
use secretproxy.Net.{split_host_port, cut_last}
use secretproxy.Http.{canonical, title, title_byte, is_token_byte, put, del, set, del_all, get}
use secretproxy.Proxy.Director.{Injection, director, strip_headers, inject}
use secretproxy.Proxy.Override.{default_format, default_header_name}
use secretproxy.Proxy.Upstream.{
  trim_string, tokens, nominated, remove_hop_by_hop, equal_fold, trim_blanks, has_token,
  upgrade_type, upstream_header, transport_header, asks_gzip,
}
use secretproxy.Proxy.Upstream.Hops.{sent_header}
use secretproxy.Tests.Samples.{plain, world, server, charge_url, request, of_lines}

abbrev bearer_token : Injection
bearer_token = record {
  token = codes "sk_live_1";
  format = default_format;
  header_name = default_header_name;
}

unfoldable code_of : Unit {0}
unfolding sent_header director strip_headers inject canonical title title_byte is_token_byte put del
    set del_all get str_eq trim_string tokens nominated remove_hop_by_hop equal_fold trim_blanks
    has_token upgrade_type upstream_header transport_header asks_gzip split trim_left trim_right
    lower_byte contains_byte split_host_port cut_last cut count_byte
code_of = tt

-- A header that the client's Connection lists reaches the upstream, since the director has deleted that
-- list by then.
listed_header_sent :
    sent_header world.sprintf server charge_url bearer_token request.method
      (codes "192.0.2.1:443")
      (of_lines ((codes "Connection", codes "X-Hop" ∷ []) ∷ (codes "X-Hop", codes "1" ∷ []) ∷ []))
      (codes "X-Hop")
    ≡ some (codes "1" ∷ [])
unfolding code_of
listed_header_sent = refl

-- So does one that names a line which the transport writes itself.
host_credential_lost :
    sent_header world.sprintf server charge_url
      (record bearer_token { header_name = codes "Host" })
      request.method
      (codes "192.0.2.1:443")
      request.header
      (codes "Host")
    ≡ none
unfolding code_of
host_credential_lost = refl

-- A seal that names a hop-by-hop header loses its credential.
hop_credential_lost :
    sent_header world.sprintf server charge_url
      (record bearer_token { header_name = codes "Proxy-Authorization" })
      request.method
      (codes "192.0.2.1:443")
      request.header
      (codes "Proxy-Authorization")
    ≡ none
unfolding code_of
hop_credential_lost = refl
