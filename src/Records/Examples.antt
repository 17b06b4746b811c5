-- ===== src/Records/Examples.antt =====
-- A proxied record with a comment and a tag, at a zone of Cloudflare.
use master_dns.Common.{◌≡◌, refl, true, none, some, String, ℕ}
use master_dns.Records.Values.{boolean, text, array, nil, cons, Fields, end, field}
use master_dns.Records.Match.{DnsRecordInput, dns_record_matches}
use master_dns.Records.Cloudflare.{normalize_cloudflare_record, to_cloudflare_input}
use master_dns.Records.Sent.{as_sent, normalize_cloudflare_record-to_cloudflare_input}

abbrev same_text : String → String
same_text s = s

abbrev key_text : ℕ → String
key_text n = "0"

abbrev date_number : String → ℕ
date_number date = 1

abbrev settings : Fields
settings =
    field "comment" (text "edge")
      (field "tags" (array (cons (text "web") nil)) (field "proxied" (boolean true) end))

abbrev wanted : DnsRecordInput
wanted = record {
  type = "A";
  name = "www.example.com";
  content = "192.0.2.1";
  ttl = 300;
  priority = none;
  provider_metadata = settings;
}

normalize_cloudflare_record-to_cloudflare_input_example :
    dns_record_matches same_text same_text key_text
      (normalize_cloudflare_record "{}" date_number
        (as_sent "r1" (some true) (some "2024-01-01") (to_cloudflare_input "z1" wanted))
        "z1").input
      wanted
    ≡ true
normalize_cloudflare_record-to_cloudflare_input_example =
    normalize_cloudflare_record-to_cloudflare_input same_text same_text key_text "{}" date_number
      "z1" "r1" (some true) (some "2024-01-01") wanted (refl, tt, (refl, (tt, tt), (refl, tt, tt)))
      (refl, ((refl, tt), (refl, tt)))
