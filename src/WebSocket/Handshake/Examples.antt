-- ===== src/WebSocket/Handshake/Examples.antt =====
-- The checks on a handshake's response at a concrete input.
use openwire.Base.{ℕ, ◌≡◌, refl, false, List, [], ◌∷◌, some, if◌then◌else◌}
use openwire.Text.{text_eq, codes}
use openwire.WebSocket.Handshake.{HandshakeResponse, ValidatedHandshake, is_subprotocol_token}

abbrev values_of : List ℕ → List (List ℕ)
values_of name =
    if text_eq name (codes "upgrade")
    then codes "WebSocket" ∷ []
    else if text_eq name (codes "connection")
    then codes "keep-alive, Upgrade" ∷ []
    else if text_eq name (codes "sec-websocket-accept")
    then codes "s3p" ∷ []
    else if text_eq name (codes "sec-websocket-protocol")
    then codes "chat" ∷ []
    else []

abbrev switching : HandshakeResponse
switching = record { status = 101; get_all = values_of }

abbrev offered : List (List ℕ)
offered = codes "chat" ∷ codes "superchat" ∷ []

abbrev chat : ValidatedHandshake
chat = record { subprotocol = some (codes "chat"); extensions = [] }

token_test : is_subprotocol_token (codes "a/b") ≡ false
unfolding is_subprotocol_token
token_test = refl
