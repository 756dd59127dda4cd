-- ===== src/Kernel/Tests.antt =====
-- A block of 2M behind a kernel image of 4M, and the theorem at it.
use smor.Prelude.{ℕ, ◌+◌, ◌*◌, ◌^◌, ◌≡◌, refl, [], done, arith}
use smor.Kernel.{BootInfo, kernel_base, kernel_slack_alloc}
use smor.Kernel.Slack.{IsReady, Block, slack_alloc-Block}

abbrev boot : BootInfo
boot = record {
  kernel_end = 4194000;
  kernel_top = 2 * 2 ^ 21;
  kernel_slack = 4194000;
  slack_lock = 0;
  mapped = [];
}

boot-IsReady : IsReady boot
boot-IsReady = record { inside = omega arith; aligned = refl; unlocked = refl }

slack_alloc-Block_example :
    (p : ℕ) × (b' : BootInfo) × (kernel_slack_alloc (2 ^ 21) (2 ^ 21) boot
      ≡ done (kernel_base + p, b'))
    × Block boot (2 ^ 21) (2 ^ 21) p b'
slack_alloc-Block_example = slack_alloc-Block (2 ^ 21) 21 boot-IsReady (omega arith) (omega arith)
