-- ===== src/Tests/Rotation.antt =====
-- A key that changes, and a key that is asked for, at concrete inputs.
use dor.Base.{◌≡◌, refl, inl, some, [], ◌∷◌, ◌++◌, arith, ok, pos}
use dor.Strings.{itoa, codes}
use dor.Model.Membership.{Identity, update_line, regenerate_keys}
use dor.Model.Node.{Run, finished}
use dor.Model.Handler.{handlerroutine}
use dor.Node.KeyCache
use dor.Node.KeyCache.{KeyCache, CachedKey, fetch_key_from_server}
use dor.Node.Commands.Fetch.{pubkey_request, cli_fetch, web_fetch}
use dor.Node.Commands.Fetch.Answer.{answered, pubkey_line, fetch-handlerroutine}
use dor.Directory.Server.{handle_connection}
use dor.Directory.Registration.{serve}
use dor.Directory.Rotation.{regenerate_keys-fetch_key_from_server}
use dor.Tests.Server.{backwards, backwards-Permᴰ, alice, table_two}
use dor.Tests.Toy.{toy, toy_laws}
use dor.Tests.Handlers.{offline, idle}

abbrev alice_now : Identity toy
alice_now = record {
  id = codes "alice";
  node_ip = codes "10.0.0.1";
  port = pos 9000;
  private_key = 4;
}

regenerate_keys-fetch_key_from_server_example :
    let (renewed, result) = regenerate_keys toy (λ line. ok tt) 6 alice_now in
    let line = update_line toy (codes "alice") (toy.public_of renewed.private_key) in
    let told = (handle_connection backwards line table_two).0 in
    (result ≡ ok tt)
    × (fetch_key_from_server toy
          (serve backwards told)
          (codes "10.0.0.1" ++ (b':' ∷ itoa (pos 9000)))
        ≡ ok (toy.public_of renewed.private_key))
    × (renewed.private_key ≡ 6)
regenerate_keys-fetch_key_from_server_example =
    regenerate_keys-fetch_key_from_server toy toy_laws alice_now 6 (λ line. ok tt) backwards
      backwards table_two alice refl refl backwards-Permᴰ (omega arith) (omega arith) (omega arith)
      (omega arith) (inl refl) refl ((λ e f. refl), ((λ e f. ground (arith, f)), tt))

abbrev silent : Run
silent = record { node = idle; sent = []; replies = [] }

fetch-handlerroutine_example :
    let line = pubkey_line toy 4 in
    (handlerroutine toy 4 offline pubkey_request silent
      ≡ (finished, record silent { replies = line ∷ [] }))
    × (web_fetch toy 7 [] (codes "10.0.0.1:9000") (answered line)
        ≡ cli_fetch toy 7 [] (codes "10.0.0.1:9000") (answered line))
    × (KeyCache.get
          (cli_fetch toy 7 [] (codes "10.0.0.1:9000") (answered line))
          (codes "10.0.0.1:9000")
        ≡ some (record { key = toy.public_of 4; expires_at = 37 }))
fetch-handlerroutine_example =
    fetch-handlerroutine toy toy_laws 4 offline silent 7 [] (codes "10.0.0.1:9000")
      (codes "10.0.0.1:9000")
