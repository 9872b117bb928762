-- ===== src/Tests/Scheduling.antt =====
-- The delivery controller, at concrete inputs.
use cajui_firmware.Base.{false, ◌≤◌, ◌≡◌, ◌≤◌, true, false}
use cajui_firmware.Records.{Role}
use cajui_firmware.Storage.{Store}
use cajui_firmware.Runtime.{
  Controller, new_controller, default_policy, SendState, Completion, active, elapsed, poll,
}
use cajui_firmware.Runtime.Deadlines.{follows, poll-follows}
use cajui_firmware.Tests.World.{clear_cipher, Memory, store_of, quiet}

abbrev sensor : Store Memory
sensor = store_of Role.transmitter 9

-- A cycle that began at 100 ms.
abbrev running : Controller
running = record (new_controller default_policy) { state = SendState.starting; cycle_start = 100 }

poll-follows_example :
    (follows running.state (poll quiet clear_cipher running 150).0.state ≡ true)
    × (active running ≡ true
        → 10000 ≤ elapsed 150 100
        → ((poll quiet clear_cipher running 150).0.state ≡ SendState.finished)
          × ((poll quiet clear_cipher running 150).0.report.completion ≡ Completion.deadline))
poll-follows_example = poll-follows quiet clear_cipher running 150

-- A node that may still make two attempts.
abbrev trying : Controller
trying = record running { sender = record running.sender { attempts = 1 } }
