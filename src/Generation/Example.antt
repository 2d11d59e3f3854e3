-- ===== src/Generation/Example.antt =====
-- A system whose only state is the link and a clock, for the tests.
use s3_storage_node.Common.{
  ℕ, ◌+◌, String, ◌≡◌, refl, ◌↔◌, Bool, true, false, List, [], ◌∷◌, none, some, arith, str_eq,
  false≢true, if◌then◌else◌,
}
use s3_storage_node.Common.Json.{object}
use s3_storage_node.Generation.System.{System, Text}
use s3_storage_node.Generation.Machine.{Worker, Machine}
use s3_storage_node.Generation.Worker.{show_link}
use s3_storage_node.Generation.Detached.{LinkLaws}

-- Whether the link exists, and the time.
abbrev pub World : Type 0
World = Bool × ℕ

abbrev pub call_ip : List String → World → ℕ × World
call_ip (program ∷ object ∷ verb ∷ rest) (linked, t) =
    if str_eq verb "del" then (0, (false, t)) else ((if linked then 0 else 1), (linked, t))
call_ip _ w = (1, w)

abbrev pub os : System World
os = record {
  call = call_ip;
  spawn = λ command w. (1, w);
  alive = λ pid w. false;
  killpg = λ signal pid w. (true, w);
  wait = λ pid t w. (true, w);
  exists = λ path w. false;
  read_text = λ path w. none;
  write_text = λ path content w. (true, w);
  write_json = λ path json w. (true, w);
  make_directory = λ path w. (true, w);
  time = λ w. w.1;
  clock = λ w. w.1;
  sleep = λ n w. (w.0, w.1 + n);
}

abbrev pub words : String → List String
words line = if str_eq line "nameserver 10.0.0.1" then "nameserver" ∷ "10.0.0.1" ∷ [] else []

abbrev pub text : Text
text = record {
  splitlines = λ content. "# dns" ∷ content ∷ content ∷ [];
  split = words;
  strip = λ line. line;
  starts_with = λ line prefix. false;
  ip_address = λ address. some address;
  ip_interface = λ address. some (address, address);
  decimal = λ n. "1";
  concat = λ a b. a;
  executable = "python";
  child = λ path name. name;
}

abbrev pub linked : World → Bool
linked w = w.0

pub laws-shown :
    (w : World) → ((os.call show_link w).0 ≡ 0) ↔ (linked (os.call show_link w).1 ≡ true)
laws-shown (true, t) = (λ e. refl, λ e. refl)
laws-shown (false, t) = (λ e. absurd (omega arith), λ e. absurd (false≢true e))

abbrev pub laws : LinkLaws os linked
laws = record {
  shown = laws-shown;
  killed = λ signal pid w h. h;
  waited = λ pid t w h. h;
  wrote = λ path json w h. h;
}

abbrev pub worker : Worker
worker = record {
  generation = 4;
  token = "abc";
  mode = "namespace";
  state_dir = "/state";
  runtime_dir = "/run/4";
  host_address = "169.254.254.1/30";
  worker_address = "169.254.254.2/30";
  gateway = "169.254.254.1";
  resolver_config = "/etc/resolv.conf";
  keeper = some 12;
  dns_proxy = some 13;
  fenced = false;
  fence_reason = "";
}

abbrev pub machine : Machine World
machine = record { worker = worker; world = (true, 0) }
