-- ===== src/Tests/Adapters.antt =====
-- Runs of the choice of an adapter (pkg/obd/detect.go) and of the lists of commands.

use mechmind.Obd.Detect.{
  elm_candidate, j2534_openport, SerialPort, list_serial_ports, first_elm_path, Identity,
}
use mechmind.Base.{refl, List, [], ◌∷◌, if◌then◌else◌}
use mechmind.Text.{text_eq, codes, Text}
use mechmind.Obd.Detect.Choice.{first_elm_path-IsUsable, IsUsable}

abbrev identities : Text → Identity
identities path =
    if text_eq path (codes "/dev/ttyACM0")
    then (codes "0403", codes "cc4c", codes "Tactrix", codes "OpenPort 2.0")
    else (codes "1a86", codes "7523", [], codes "USB Serial")

abbrev two_paths : List Text
two_paths = codes "/dev/ttyACM0" ∷ codes "/dev/ttyUSB0" ∷ []

abbrev tactrix : SerialPort
tactrix = record {
  path = codes "/dev/ttyACM0";
  vid = codes "0403";
  pid = codes "cc4c";
  manufacturer = codes "Tactrix";
  product = codes "OpenPort 2.0";
  kind = j2534_openport;
  label = [];
}

abbrev dongle : SerialPort
dongle = record {
  path = codes "/dev/ttyUSB0";
  vid = codes "1a86";
  pid = codes "7523";
  manufacturer = [];
  product = codes "USB Serial";
  kind = elm_candidate;
  label = [];
}

first_elm_path-IsUsable_example : IsUsable identities two_paths (codes "/dev/ttyUSB0")
unfolding first_elm_path list_serial_ports
first_elm_path-IsUsable_example =
    first_elm_path-IsUsable identities two_paths (codes "/dev/ttyUSB0") refl
