-- ===== src/Obd/Detect/Choice.antt =====
-- Which port is chosen, by the bay server and by the command line.
use mechmind.Text.Laws.{text_eq_iff, text_eq_refl}
use mechmind.Obd.Dtcs.Status.{member}
use mechmind.Text.{Text, text_eq}
use mechmind.Base.{
  All, keep, ◌≡◌, refl, Bool, true, false, not, List, [], ◌∷◌, map, arith, if◌then◌else◌,
}
use mechmind.Obd.Detect.{
  AdapterKind, list_serial_ports, classify_usb_identity, no_device, j2534_unsupported, refused,
  Identity, chosen, is_j2534, pick_from, PortChoice, first_elm_path, first_elm_from,
  inspect_serial_port, pick_port, SerialPort,
}

-- The ports that do not belong to a J2534 adapter.
abbrev pub usable : List SerialPort → List SerialPort
usable = keep (λ p. not (is_j2534 p.kind))

-- The choice, by the list of usable ports and by whether there is a port at all.
abbrev pub choice_of : List SerialPort → List SerialPort → PortChoice
choice_of (p ∷ good) ports = chosen p.path
choice_of [] [] = refused no_device
choice_of [] (p ∷ ports) = refused j2534_unsupported

first_elm_from-usable :
    (saw : Bool) (p : SerialPort) (ports : List SerialPort)
    → first_elm_from saw (p ∷ ports) ≡ choice_of (usable (p ∷ ports)) (p ∷ ports)
unfolding first_elm_from
first_elm_from-usable true p [] = ground arith
first_elm_from-usable false p [] = ground arith
first_elm_from-usable true p (q ∷ ports) = ground (arith, first_elm_from-usable true q ports)
first_elm_from-usable false p (q ∷ ports) = ground (arith, first_elm_from-usable true q ports)

-- The first port that is not of a J2534 adapter is chosen; without one the refusal says whether
-- there were ports at all.
first_elm_path-choice :
    (ports : List SerialPort) → first_elm_path ports ≡ choice_of (usable ports) ports
unfolding first_elm_path
first_elm_path-choice [] = refl
first_elm_path-choice (p ∷ ports) = first_elm_from-usable false p ports

abbrev pub HasPath : SerialPort → Type 0
HasPath p = text_eq p.path [] ≡ false

pick_from-usable :
    (p : SerialPort) (ports : List SerialPort)
    → HasPath p
    → All HasPath ports
    → (if text_eq (pick_from (p ∷ ports)) []
        then refused j2534_unsupported
        else chosen (pick_from (p ∷ ports)))
      ≡ choice_of (usable (p ∷ ports)) (p ∷ ports)
unfolding pick_from
pick_from-usable p [] hp h = ground (arith, text_eq_refl [])
pick_from-usable p (q ∷ ports) hp (hq, h) = ground (arith, pick_from-usable q ports hq h)

-- The command line and the bay server choose the same port and refuse alike, if every port that
-- is listed has a path.
pick_port-first_elm_path :
    (ports : List SerialPort) → All HasPath ports → pick_port ports ≡ first_elm_path ports
unfolding pick_port
pick_port-first_elm_path [] h = unfold first_elm_path in refl
pick_port-first_elm_path (p ∷ ports) (hp, h) =
    rw (first_elm_path-choice (p ∷ ports)) (pick_from-usable p ports hp h)

-- The kind that `InspectSerialPort` gives a path.
abbrev pub kind_of : (Text → Identity) → Text → AdapterKind
kind_of identity path =
    let (vid, pid, mfr, prod) = identity path in classify_usb_identity vid pid mfr prod

inspect_serial_port-path :
    (identity : Text → Identity) (path : Text) → (inspect_serial_port identity path).path ≡ path
unfolding inspect_serial_port
inspect_serial_port-path identity path = refl

inspect_serial_port-kind :
    (identity : Text → Identity) (path : Text)
    → (inspect_serial_port identity path).kind ≡ kind_of identity path
unfolding inspect_serial_port
inspect_serial_port-kind identity path = refl

abbrev pub IsUsable : (Text → Identity) → List Text → Text → Type 0
IsUsable identity paths path =
    (member path paths ≡ true) × (is_j2534 (kind_of identity path) ≡ false)

first_elm_from-kind :
    (identity : Text → Identity) (saw : Bool) (paths : List Text) (path : Text)
    → first_elm_from saw (map (inspect_serial_port identity) paths) ≡ chosen path
    → IsUsable identity paths path
unfolding first_elm_from
first_elm_from-kind identity true [] path e = cc
first_elm_from-kind identity false [] path e = cc
first_elm_from-kind identity true (q ∷ paths) path e = ground (
  arith,
  inspect_serial_port-path identity q,
  inspect_serial_port-kind identity q,
  text_eq_iff q path,
  first_elm_from-kind identity true paths path,
)
first_elm_from-kind identity false (q ∷ paths) path e = ground (
  arith,
  inspect_serial_port-path identity q,
  inspect_serial_port-kind identity q,
  text_eq_iff q path,
  first_elm_from-kind identity true paths path,
)

-- Among the devices that are listed, the one that is chosen is a listed device whose USB identity
-- is not that of a J2534 adapter.
pub first_elm_path-IsUsable :
    (identity : Text → Identity) (paths : List Text) (path : Text)
    → first_elm_path (list_serial_ports identity paths) ≡ chosen path
    → IsUsable identity paths path
unfolding first_elm_path list_serial_ports
first_elm_path-IsUsable identity [] path e = cc
first_elm_path-IsUsable identity (q ∷ paths) path e =
    first_elm_from-kind identity false (q ∷ paths) path e
