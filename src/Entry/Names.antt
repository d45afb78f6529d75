-- ===== src/Entry/Names.antt =====
-- common/monidroid/protocol.h, `Control`, and server/main.cpp: the names of the messages and of the fields of
-- the control interface, and its texts.
use monidroid.Base.{ℕ, List, [], ◌∷◌}

abbrev pub get_config : List ℕ
get_config = b'c' ∷ b'o' ∷ b'n' ∷ b'f' ∷ b'i' ∷ b'g' ∷ b'/' ∷ b'a' ∷ b'l' ∷ b'l' ∷ []

abbrev pub get_clients : List ℕ
get_clients = b'c' ∷ b'l' ∷ b'i' ∷ b'e' ∷ b'n' ∷ b't' ∷ b's' ∷ b'/' ∷ b'a' ∷ b'l' ∷ b'l' ∷ []

abbrev pub set_state : List ℕ
set_state =
    b'c' ∷ b'o' ∷ b'n' ∷ b'f' ∷ b'i' ∷ b'g' ∷ b'/' ∷ b's' ∷ b'e' ∷ b'r' ∷ b'v' ∷ b'e' ∷ b'r' ∷ b'S'
    ∷ b't' ∷ b'a' ∷ b't' ∷ b'e' ∷ []

abbrev pub shutdown_event : List ℕ
shutdown_event =
    b'c' ∷ b'o' ∷ b'n' ∷ b'f' ∷ b'i' ∷ b'g' ∷ b'/' ∷ b's' ∷ b'h' ∷ b'u' ∷ b't' ∷ b'd' ∷ b'o' ∷ b'w'
    ∷ b'n' ∷ []

abbrev pub disconnect_client : List ℕ
disconnect_client =
    b'c' ∷ b'l' ∷ b'i' ∷ b'e' ∷ b'n' ∷ b't' ∷ b's' ∷ b'/' ∷ b'd' ∷ b'i' ∷ b's' ∷ b'c' ∷ b'o' ∷ b'n'
    ∷ b'n' ∷ b'e' ∷ b'c' ∷ b't' ∷ []

abbrev pub connected_event : List ℕ
connected_event = b'c' ∷ b'l' ∷ b'i' ∷ b'e' ∷ b'n' ∷ b't' ∷ b's' ∷ b'/' ∷ b'n' ∷ b'e' ∷ b'w' ∷ []

abbrev pub disconnected_event : List ℕ
disconnected_event =
    b'c' ∷ b'l' ∷ b'i' ∷ b'e' ∷ b'n' ∷ b't' ∷ b's' ∷ b'/' ∷ b'd' ∷ b'i' ∷ b's' ∷ b'c' ∷ b'o' ∷ b'n'
    ∷ b'n' ∷ b'e' ∷ b'c' ∷ b't' ∷ b'e' ∷ b'd' ∷ []

abbrev pub version_key : List ℕ
version_key = b'v' ∷ b'e' ∷ b'r' ∷ b's' ∷ b'i' ∷ b'o' ∷ b'n' ∷ []

abbrev pub enabled_key : List ℕ
enabled_key = b'e' ∷ b'n' ∷ b'a' ∷ b'b' ∷ b'l' ∷ b'e' ∷ b'd' ∷ []

abbrev pub hostname_key : List ℕ
hostname_key = b'h' ∷ b'o' ∷ b's' ∷ b't' ∷ b'n' ∷ b'a' ∷ b'm' ∷ b'e' ∷ []

abbrev pub addresses_key : List ℕ
addresses_key = b'a' ∷ b'd' ∷ b'd' ∷ b'r' ∷ b'e' ∷ b's' ∷ b's' ∷ b'e' ∷ b's' ∷ []

abbrev pub clients_key : List ℕ
clients_key = b'c' ∷ b'l' ∷ b'i' ∷ b'e' ∷ b'n' ∷ b't' ∷ b's' ∷ []

abbrev pub enable_key : List ℕ
enable_key = b'e' ∷ b'n' ∷ b'a' ∷ b'b' ∷ b'l' ∷ b'e' ∷ []

abbrev pub id_key : List ℕ
id_key = b'i' ∷ b'd' ∷ []

abbrev pub address_key : List ℕ
address_key = b'a' ∷ b'd' ∷ b'd' ∷ b'r' ∷ b'e' ∷ b's' ∷ b's' ∷ []

abbrev pub connection_type_key : List ℕ
connection_type_key =
    b'c' ∷ b'o' ∷ b'n' ∷ b'n' ∷ b'e' ∷ b'c' ∷ b't' ∷ b'i' ∷ b'o' ∷ b'n' ∷ b'T' ∷ b'y' ∷ b'p' ∷ b'e'
    ∷ []

abbrev pub name_key : List ℕ
name_key = b'n' ∷ b'a' ∷ b'm' ∷ b'e' ∷ []

abbrev pub connected_at_key : List ℕ
connected_at_key = b'c' ∷ b'o' ∷ b'n' ∷ b'n' ∷ b'e' ∷ b'c' ∷ b't' ∷ b'e' ∷ b'd' ∷ b'A' ∷ b't' ∷ []

abbrev pub client_key : List ℕ
client_key = b'c' ∷ b'l' ∷ b'i' ∷ b'e' ∷ b'n' ∷ b't' ∷ []

abbrev pub usb_text : List ℕ
usb_text = b'u' ∷ b's' ∷ b'b' ∷ []

abbrev pub wifi_text : List ℕ
wifi_text = b'w' ∷ b'i' ∷ b'f' ∷ b'i' ∷ []

abbrev pub incorrect_usage : List ℕ
incorrect_usage =
    b'I' ∷ b'n' ∷ b'c' ∷ b'o' ∷ b'r' ∷ b'r' ∷ b'e' ∷ b'c' ∷ b't' ∷ b' ' ∷ b'u' ∷ b's' ∷ b'a' ∷ b'g'
    ∷ b'e' ∷ []
