-- ===== src/Processing/Pipeline.antt =====
-- What a worker does with a message: apps/worker/src/processing/pipeline-processor.service.ts over
-- the repository. The stages stand in `Stages`.
pub mod Providers
pub mod Queries
pub mod Stages
pub mod Process
pub mod Linked
pub mod Order
pub mod Sound
mod Tests
