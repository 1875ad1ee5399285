-- ===== src/Tests.antt =====
-- Runs of the models at concrete inputs, and the theorems at inputs that meet their hypotheses.
mod PmmTests
mod BootTests
mod PagingTests
mod TimeTests
mod VaspaceTests
mod InputTests
mod MemutilTests
mod KvprintfTests
mod KheapTests
mod LinkedListTests
mod SchedTests
mod ProcessesTests
mod BcacheTests
mod PartitionsTests
mod FatTests
mod InitrdTests
mod StringTests
mod MountsTests
mod FilesTests
