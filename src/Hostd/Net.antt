-- ===== src/Hostd/Net.antt =====
-- crates/hostd/src/net.rs: the network identity of a VM, its tap, and the gratuitous ARP after a
-- restore. Running `ip` and the raw socket are the interface `Shell`.
pub mod Plan
mod Examples
use sleepwalk.Prelude.{
  ℕ, zero, suc, ◌+◌, ◌*◌, ◌-◌, Bool, true, false, ◌&&◌, ◌||◌, leb, ltb, ◌==◌, if◌then◌else◌, Option,
  none, some, List, [], ◌∷◌, ◌++◌, length, take, drop, replicate,
}
use sleepwalk.Prelude.Results.{
  Result, ok, err, map_err, Method, pure, fail, from_result, ok_or, ◌>>=◌, ◌>>◌,
}
use sleepwalk.Prelude.Strings.{trim, decimal, digits_in, split, parse_u8}
use sleepwalk.Proto.Ids.{Text}

pub data NetError : Type 0 where
  -- The command line and its standard error, or why it could not be run.
  command : Text → Text → NetError
  out_of_range : ℕ → NetError
  bad_mac bad_ip : Text → NetError
  announce_failed : Text → NetError

pub record NetId : Type 0 where
  pub tap : Text
  pub mac : Text
  pub ip : Text

-- `output` runs `ip` with arguments and returns whether it succeeded and its standard error;
-- `send_frame` is what `announce` does with its frame: the interface's index, the socket, `sendto`.
pub record Shell : Type 1 where
  pub World : Type 0
  pub output : List Text → Method World Text (Bool × Text)
  pub send_frame : List ℕ → Method World Text (Unit {0})

-- "br-sw"
abbrev bridge : Text
bridge = 98 ∷ 114 ∷ 45 ∷ 115 ∷ 119 ∷ []

-- "ip"
abbrev ip_command : Text
ip_command = 105 ∷ 112 ∷ []

abbrev words : List Text → Text
words [] = []
words (w ∷ []) = w
words (w ∷ v ∷ ws) = w ++ 32 ∷ words (v ∷ ws)

-- "0{:x}" of a byte.
abbrev hex_byte : ℕ → Text
hex_byte n = if ltb n 16 then 48 ∷ digits_in 16 n n else digits_in 16 n n

-- "02:00:00:00:00:" and "10.200.0."
abbrev mac_prefix : Text
mac_prefix = 48 ∷ 50 ∷ 58 ∷ 48 ∷ 48 ∷ 58 ∷ 48 ∷ 48 ∷ 58 ∷ 48 ∷ 48 ∷ 58 ∷ 48 ∷ 48 ∷ 58 ∷ []

abbrev ip_prefix : Text
ip_prefix = 49 ∷ 48 ∷ 46 ∷ 50 ∷ 48 ∷ 48 ∷ 46 ∷ 48 ∷ 46 ∷ []

-- The identity that `create` gives to the VM with this place among the hosts of the subnet.
unfoldable pub identity : ℕ → ℕ → NetId
identity idx host = record {
  tap = 115 ∷ 119 ∷ 45 ∷ 116 ∷ 97 ∷ 112 ∷ decimal idx;
  mac = mac_prefix ++ hex_byte host;
  ip = ip_prefix ++ decimal host;
}

-- `parse_mac`; the array is filled as far as the parts go, of which there are six.
abbrev parse_parts : ℕ → List Text → Option (List ℕ)
parse_parts base [] = some []
parse_parts base (w ∷ ws) = elim (parse_u8 base w) [
  | none ↦ none
  | some b ↦ elim (parse_parts base ws) [ none ↦ none | some bs ↦ some (b ∷ bs) ]
]

unfoldable pub parse_mac : Text → Result (List ℕ) NetError
parse_mac s =
    let parts = split 58 s in
    if length parts == 6 then ok_or (parse_parts 16 parts) (bad_mac s) else err (bad_mac s)

unfoldable pub parse_ipv4 : Text → Result (List ℕ) NetError
parse_ipv4 s =
    let parts = split 46 s in
    if length parts == 4 then ok_or (parse_parts 10 parts) (bad_ip s) else err (bad_ip s)

-- `frame[from..to].copy_from_slice(bytes)`
unfoldable pub put_at : ℕ → List ℕ → List ℕ → List ℕ
put_at from bytes frame = take from frame ++ (bytes ++ drop (from + length bytes) frame)

-- The frame of `announce`.
unfoldable pub arp_frame : List ℕ → List ℕ → List ℕ
arp_frame mac ip = put_at 38 ip (
    put_at 28 ip (
      put_at 22 mac (
        put_at 20 (0 ∷ 1 ∷ []) (
          put_at 19 (4 ∷ []) (
            put_at 18 (6 ∷ []) (
              put_at 16 (8 ∷ 0 ∷ []) (
                put_at 14 (0 ∷ 1 ∷ []) (
                  put_at 12 (8 ∷ 6 ∷ [])
                    (put_at 6 mac (put_at 0 (replicate 6 255) (replicate 42 0)))))))))))

-- "tuntap"
abbrev tuntap : Text
tuntap = 116 ∷ 117 ∷ 110 ∷ 116 ∷ 97 ∷ 112 ∷ []

-- "add"
abbrev add_word : Text
add_word = 97 ∷ 100 ∷ 100 ∷ []

-- "mode"
abbrev mode_word : Text
mode_word = 109 ∷ 111 ∷ 100 ∷ 101 ∷ []

-- "tap"
abbrev tap_word : Text
tap_word = 116 ∷ 97 ∷ 112 ∷ []

-- "link"
abbrev link_word : Text
link_word = 108 ∷ 105 ∷ 110 ∷ 107 ∷ []

-- "set"
abbrev set_word : Text
set_word = 115 ∷ 101 ∷ 116 ∷ []

-- "master"
abbrev master_word : Text
master_word = 109 ∷ 97 ∷ 115 ∷ 116 ∷ 101 ∷ 114 ∷ []

-- "up"
abbrev up_word : Text
up_word = 117 ∷ 112 ∷ []

-- "del"
abbrev del_word : Text
del_word = 100 ∷ 101 ∷ 108 ∷ []

-- "10.200.0.1"
abbrev gateway : Text
gateway = 49 ∷ 48 ∷ 46 ∷ 50 ∷ 48 ∷ 48 ∷ 46 ∷ 48 ∷ 46 ∷ 49 ∷ []

-- "255.255.255.0"
abbrev netmask : Text
netmask = 50 ∷ 53 ∷ 53 ∷ 46 ∷ 50 ∷ 53 ∷ 53 ∷ 46 ∷ 50 ∷ 53 ∷ 53 ∷ 46 ∷ 48 ∷ []

-- "ip="
abbrev ip_is : Text
ip_is = 105 ∷ 112 ∷ 61 ∷ []

-- "::eth0:off"
abbrev eth0_off : Text
eth0_off = 58 ∷ 58 ∷ 101 ∷ 116 ∷ 104 ∷ 48 ∷ 58 ∷ 111 ∷ 102 ∷ 102 ∷ []

-- `boot_arg`
unfoldable pub boot_arg : NetId → Text
boot_arg net = ip_is ++ (net.ip ++ 58 ∷ 58 ∷ (gateway ++ 58 ∷ (netmask ++ eth0_off)))

-- The check in `create`, whose sum is a `u32`.
unfoldable pub in_range : ℕ → Bool
in_range idx = ltb (idx + 2) 4294967296 && leb (idx + 2) 254

module _ (sh : Shell) where
  abbrev pub Net : Type 0 → Type 0
  Net A = Method sh.World NetError A

  abbrev judge : List Text → Result (Bool × Text) Text → Result (Unit {0}) NetError
  judge args (ok (true, stderr)) = ok tt
  judge args (ok (false, stderr)) = err (command (words (ip_command ∷ args)) (trim stderr))
  judge args (err e) = err (command (words (ip_command ∷ args)) e)

  -- `run`
  unfoldable pub run_ip : List Text → Net (Unit {0})
  run_ip args w = let (r, w') = sh.output args w in (judge args r, w')

  unfoldable pub create_tap : Text → Net (Unit {0})
  create_tap name = do
    run_ip (tuntap ∷ add_word ∷ name ∷ mode_word ∷ tap_word ∷ [])
    run_ip (link_word ∷ set_word ∷ name ∷ master_word ∷ bridge ∷ [])
    run_ip (link_word ∷ set_word ∷ name ∷ up_word ∷ [])

  abbrev pub allot : Bool → ℕ → Net NetId
  allot false idx = fail (out_of_range idx)
  allot true idx = create_tap (identity idx (idx + 2)).tap >> pure (identity idx (idx + 2))

  unfoldable pub create : ℕ → Net NetId
  create idx = allot (in_range idx) idx

  -- `destroy`, whose failure is dropped.
  unfoldable pub destroy : Text → sh.World → sh.World
  destroy tap w = (run_ip (link_word ∷ del_word ∷ tap ∷ []) w).1

  abbrev pub sending : List ℕ → Net (Unit {0})
  sending frame w = let (r, w') = sh.send_frame frame w in (map_err announce_failed r, w')

  -- `announce` on Linux.
  unfoldable pub announce : NetId → Net (Unit {0})
  announce net = do
    mac ← from_result (parse_mac net.mac)
    ip ← from_result (parse_ipv4 net.ip)
    sending (arp_frame mac ip)
