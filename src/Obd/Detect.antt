-- ===== src/Obd/Detect.antt =====
-- USB identities (pkg/obd/detect.go), and the choice of a port (cmd/bayui/server.go:
-- firstELMPath). What sysfs says of a device is a parameter.
pub mod Choice
use mechmind.Base.{
  ◌+◌, ◌-◌, ◌/◌, Bool, true, false, not, ◌&&◌, ◌||◌, List, [], ◌∷◌, ◌++◌, map, if◌then◌else◌,
}
use mechmind.Text.{codes, contains, to_lower, text_eq, trim_space, Text}

pub data AdapterKind : Type 0 where
  unknown elm_candidate j2534_openport : AdapterKind

pub record SerialPort : Type 0 where
  pub path : Text
  pub kind : AdapterKind
  pub vid : Text
  pub pid : Text
  pub manufacturer : Text
  pub product : Text
  pub label : Text

unfoldable pub classify_usb_identity : Text → Text → Text → Text → AdapterKind
unfolding to_lower trim_space contains text_eq
classify_usb_identity vid pid manufacturer product =
    let vid = to_lower (trim_space vid) in
    let pid = to_lower (trim_space pid) in
    let blob = to_lower (manufacturer ++ codes " " ++ product) in
    if text_eq vid (codes "0403") && text_eq pid (codes "cc4d")
    then j2534_openport
    else if contains blob (codes "openport") || contains blob (codes "tactrix")
    then j2534_openport
    else if text_eq vid [] && text_eq pid []
    then unknown
    else elm_candidate

unfoldable pub usb_nickname : Text → Text → Text
unfolding to_lower trim_space text_eq
usb_nickname vid pid =
    let id = to_lower (trim_space vid ++ codes ":" ++ trim_space pid) in
    if text_eq id (codes "0918:7104")
    then codes "QBD"
    else if text_eq id (codes "0403:cc4d")
    then codes "Tactrix OpenPort"
    else []

-- A dash of three bytes between spaces.
abbrev dash : Text
dash = 32 ∷ 0xE2 ∷ 0x80 ∷ 0x94 ∷ 32 ∷ []

usb_id : SerialPort → Text
unfolding trim_space
usb_id p = trim_space (p.vid ++ codes ":" ++ p.pid)

label_elm : SerialPort → Text
unfolding usb_nickname usb_id text_eq
label_elm p =
    let nick = usb_nickname p.vid p.pid in
    let id = usb_id p in
    if not (text_eq nick []) && not (text_eq id (codes ":"))
    then p.path ++ dash ++ nick ++ codes " ELM-class " ++ id
    else if not (text_eq p.vid [])
    then p.path ++ dash ++ codes "ELM-class " ++ p.vid ++ codes ":" ++ p.pid
    else p.path ++ dash ++ codes "ELM-class"

label_kind : AdapterKind → SerialPort → Text
unfolding label_elm usb_id text_eq
label_kind unknown p = p.path
label_kind elm_candidate p = label_elm p
label_kind j2534_openport p =
    let id = usb_id p in
    p.path
    ++ dash
    ++ codes "OpenPort / J2534 (not ELM) "
    ++ (if text_eq id (codes ":") then codes "J2534" else id)

unfoldable pub display_label : SerialPort → Text
unfolding label_kind text_eq
display_label p = if not (text_eq p.label []) then p.label else label_kind p.kind p

-- What `linuxUSBIdentity` reads: vendor, product, manufacturer and product texts.
abbrev pub Identity : Type 0
Identity = Text × Text × Text × Text

-- `InspectSerialPort` on Linux, given the device's identity.
unfoldable pub inspect_serial_port : (Text → Identity) → Text → SerialPort
unfolding classify_usb_identity display_label
inspect_serial_port identity path =
    let (vid, pid, mfr, prod) = identity path in
    let p : SerialPort = record {
      path = path;
      kind = classify_usb_identity vid pid mfr prod;
      vid = vid;
      pid = pid;
      manufacturer = mfr;
      product = prod;
      label = [];
    } in
    record p { label = display_label p }

unfoldable pub list_serial_ports : (Text → Identity) → List Text → List SerialPort
unfolding inspect_serial_port
list_serial_ports identity paths = map (inspect_serial_port identity) paths

pub data PathError : Type 0 where
  no_device j2534_unsupported : PathError

pub data PortChoice : Type 0 where
  chosen : Text → PortChoice
  refused : PathError → PortChoice

abbrev pub is_j2534 : AdapterKind → Bool
is_j2534 j2534_openport = true
is_j2534 k = false

-- `ErrJ2534Unsupported`.
pub j2534_text : Text
j2534_text =
    codes "this adapter is J2534 (Tactrix OpenPort-class), not ELM327; MechMind cannot scan it yet"
    ++ dash
    ++ codes "use an ELM327/STN USB dongle"

-- The loop of `firstELMPath`; the flag is `sawJ2534`.
first_elm_from : Bool → List SerialPort → PortChoice
first_elm_from true [] = refused j2534_unsupported
first_elm_from false [] = refused no_device
first_elm_from saw (p ∷ ports) =
    let rest = first_elm_from true ports in if is_j2534 p.kind then rest else chosen p.path

unfoldable pub first_elm_path : List SerialPort → PortChoice
unfolding first_elm_from
first_elm_path [] = refused no_device
first_elm_path (p ∷ ports) = first_elm_from false (p ∷ ports)

-- The loop of cmd/obdctl that picks a port; nothing is picked if `picked` stays empty.
pick_from : List SerialPort → Text
pick_from [] = []
pick_from (p ∷ ports) = let rest = pick_from ports in if is_j2534 p.kind then rest else p.path

-- The default branch of cmd/obdctl without a device.
unfoldable pub pick_port : List SerialPort → PortChoice
unfolding pick_from text_eq
pick_port [] = refused no_device
pick_port (p ∷ ports) =
    let picked = pick_from (p ∷ ports) in
    if text_eq picked [] then refused j2534_unsupported else chosen picked
