-- ===== src/Generation/Network.antt =====
-- The functions on addresses, resolvers and forwarding.
use s3_storage_node.Common.{
  String, not, ◌||◌, List, [], ◌∷◌, ◌++◌, map, none, some, if◌then◌else◌, str_eq, mem_text,
}
use s3_storage_node.Common.Result.{Result, ok, err}
use s3_storage_node.Generation.System.{System, Text}
use s3_storage_node.Generation.Machine.{
  GenerationError, unreadable, unwritable, forwarding_disabled, bad_nameserver_line, bad_address,
  no_nameservers, Method, ◌>>=◌, return, raise, need, world_of, written,
}

abbrev visible_argument : String → String
visible_argument argument =
    if str_eq argument "-ip.bind=127.0.0.1" then "-ip.bind=0.0.0.0" else argument

abbrev pub namespace_visible_command : List String → List String
namespace_visible_command command = map visible_argument command

-- A line of the file, by its fields, after the addresses so far.
unfoldable pub note_line :
    Text
    → String
    → List String
    → Result GenerationError (List String)
    → Result GenerationError (List String)
note_line text line fields (err e) = err e
note_line text line [] (ok found) = ok found
note_line text line (key ∷ []) (ok found) =
    if str_eq key "nameserver" then err (bad_nameserver_line line) else ok found
note_line text line (key ∷ value ∷ fields) (ok found) =
    if not (str_eq key "nameserver") then ok found else elim (text.ip_address value) [
      | none ↦ err (bad_address value)
      | some address ↦ if mem_text address found then ok found else ok (found ++ address ∷ [])
    ]

-- The loop of `resolver_nameservers`, which the first error ends.
unfoldable pub nameservers_from :
    Text → List String → Result GenerationError (List String) → Result GenerationError (List String)
nameservers_from text [] found = found
nameservers_from text (line ∷ lines) found =
    nameservers_from text lines (note_line text line (text.split line) found)

abbrev pub nonempty : Result GenerationError (List String) → Result GenerationError (List String)
nonempty (ok []) = err no_nameservers
nonempty (ok (address ∷ addresses)) = ok (address ∷ addresses)
nonempty (err e) = err e

-- `resolver_nameservers` on the text of the file.
unfoldable pub nameservers_of : Text → String → Result GenerationError (List String)
nameservers_of text content = nonempty (nameservers_from text (text.splitlines content) (ok []))

-- The lines of the source that `render_worker_resolv_conf` keeps.
unfoldable pub preserved_lines : Text → List String → List String
preserved_lines text [] = []
preserved_lines text (line ∷ lines) =
    let stripped = text.strip line in
    let rest = preserved_lines text lines in
    if str_eq stripped "" || text.starts_with stripped "#"
    then rest
    else elim (text.split stripped) [
      | [] ↦ rest
      | key ∷ fields ↦
          if mem_text key ("search" ∷ "domain" ∷ "options" ∷ []) then stripped ∷ rest else rest
    ]

module _ {W : Type 0} (os : System W) (text : Text) where
  abbrev pub lift : {A : Type 0} → Result GenerationError A → Method W A
  lift (ok a) = return a
  lift (err e) = raise e

  unfoldable pub read_file : String → Method W String
  read_file path = world_of >>= λ w. need (os.read_text path w) (unreadable path)

  unfoldable pub resolver_nameservers : String → Method W (List String)
  unfolding read_file
  resolver_nameservers path = read_file path >>= λ content. lift (nameservers_of text content)

  abbrev pub ip_forward : String
  ip_forward = "/proc/sys/net/ipv4/ip_forward"

  unfoldable pub ensure_ip_forwarding : Method W (Unit {0})
  unfolding read_file written
  ensure_ip_forwarding = do
    current ← read_file ip_forward
    if str_eq (text.strip current) "1" then return tt else (do
      _ ← written (os.write_text ip_forward "1\n") (unwritable ip_forward)
      enabled ← read_file ip_forward
      if str_eq (text.strip enabled) "1" then return tt else raise (forwarding_disabled enabled))
